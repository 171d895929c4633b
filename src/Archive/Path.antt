-- ===== src/Archive/Path.antt =====
-- archive/PathSanitizer.cpp. A path is its generic string: on POSIX std::filesystem::path keeps the
-- text as it is, has no root name, and is absolute when it starts with a slash.
pub mod Confined
use bseal_cpp.Base.{
  ℕ, Bool, true, false, not, ◌&&◌, ◌||◌, leb, ◌==◌, length, get_or, List, [], ◌∷◌, ◌++◌, Result, ok,
  err, invalid_argument, reject_if, if◌then◌else◌,
}
use bseal_cpp.Frame.Bytes.{equal_bytes}

abbrev pub slash : ℕ
slash = b'/'

abbrev pub dot : List ℕ
dot = b'.' ∷ []

abbrev pub dot_dot : List ℕ
dot_dot = b'.' ∷ b'.' ∷ []

-- `for (const auto& part : path)` over a relative path: the parts between runs of slashes, and an
-- empty one behind a trailing slash. The Boolean says that a slash was just passed.
unfoldable pub path_parts : Bool → List ℕ → List ℕ → List (List ℕ)
path_parts after part [] = part ∷ []
path_parts true part (c ∷ cs) =
    if c == slash then path_parts true [] cs else path_parts false (c ∷ []) cs
path_parts false part (c ∷ cs) =
    let next = part ∷ path_parts true [] cs in
    let more = path_parts false (part ++ (c ∷ [])) cs in if c == slash then next else more

unfoldable pub starts_with_slash : List ℕ → Bool
starts_with_slash path = not (length path == 0) && get_or path 0 0 == slash

unfoldable pub after_slashes : List ℕ → List ℕ
after_slashes [] = []
after_slashes (c ∷ cs) = if c == slash then after_slashes cs else c ∷ cs

-- The parts of a relative path; an empty path has none.
unfoldable pub relative_parts : List ℕ → List (List ℕ)
relative_parts [] = []
relative_parts (c ∷ cs) = path_parts false [] (c ∷ cs)

-- The first part of an absolute path is the root directory, "/".
unfoldable pub parts : List ℕ → List (List ℕ)
parts path =
    if starts_with_slash path
    then (slash ∷ []) ∷ relative_parts (after_slashes path)
    else relative_parts path

unfoldable pub is_alpha : ℕ → Bool
is_alpha c = (leb b'A' c && leb c b'Z') || (leb b'a' c && leb c b'z')

-- "C:" and "\\\\"
unfoldable pub has_windows_root : List ℕ → Bool
unfolding is_alpha
has_windows_root path =
    leb 2 (length path)
    && ((is_alpha (get_or path 0 0) && get_or path 1 0 == b':')
        || (get_or path 0 0 == 92 && get_or path 1 0 == 92))

unfoldable pub parts_are_safe : List (List ℕ) → Bool
parts_are_safe [] = true
parts_are_safe (part ∷ rest) =
    not (equal_bytes part dot_dot) && (not (equal_bytes part []) && parts_are_safe rest)

unfoldable pub is_safe_relative_path : List ℕ → Bool
is_safe_relative_path path =
    not (length path == 0)
    && (not (starts_with_slash path)
        && (not (has_windows_root path) && parts_are_safe (parts path)))

-- `lexically_normal` of an absolute path, on its parts behind the root directory: a dot vanishes, and two
-- dots take back the part before them, if there is one. The list has the last part first, and no part yet for a
-- trailing slash, which lexically_normal adds.
unfoldable pub normal_push : List (List ℕ) → List ℕ → List (List ℕ)
normal_push stack part =
    if equal_bytes part dot
    then stack
    else if equal_bytes part dot_dot
    then elim stack [ [] ↦ [] | _ ∷ below ↦ below ]
    else part ∷ stack

unfoldable pub normalize : List (List ℕ) → List (List ℕ) → List (List ℕ)
normalize stack [] = stack
normalize stack (part ∷ rest) = normalize (normal_push stack part) rest

-- Whether the last part, if there is one, is a dot or two dots; the first argument is for no part.
unfoldable pub ends_in_dots : Bool → List (List ℕ) → Bool
ends_in_dots otherwise [] = otherwise
ends_in_dots otherwise (part ∷ rest) =
    ends_in_dots (equal_bytes part dot || equal_bytes part dot_dot) rest

-- What a final dot, or two that take back a part, leave behind is a slash, that is an empty last part,
-- unless nothing but the root directory is left.
unfoldable pub lexically_normal : List (List ℕ) → List (List ℕ)
lexically_normal path_parts =
    if ends_in_dots false path_parts
    then elim (normalize [] path_parts) [ [] ↦ [] | top ∷ below ↦ [] ∷ top ∷ below ]
    else normalize [] path_parts

-- `output_root / archive_path`, for an absolute root without a trailing slash, given by its parts behind the
-- root directory: a path that is absolute itself replaces the root.
unfoldable pub append_path : List (List ℕ) → List ℕ → List (List ℕ)
append_path output_root archive_path =
    if starts_with_slash archive_path
    then relative_parts (after_slashes archive_path)
    else output_root ++ parts archive_path

-- The result has the last part first.
unfoldable pub make_safe_output_path : List (List ℕ) → List ℕ → Result (List (List ℕ))
make_safe_output_path output_root archive_path =
    if not (is_safe_relative_path archive_path)
    then err (invalid_argument "unsafe archive path rejected during extraction")
    else ok (lexically_normal (append_path output_root archive_path))
