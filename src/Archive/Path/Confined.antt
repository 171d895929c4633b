-- ===== src/Archive/Path/Confined.antt =====
-- A path that passes the sanitizer stays below the output root.
use bseal_cpp.Base.{
  ℕ, ◌≡◌, refl, sym, ap, subst, ◌∙◌, Bool, true, false, ◌||◌, ◌==◌, List, [], ◌∷◌, ◌++◌,
  append_assoc, ok, ok_injective, if◌then◌else◌, Bool-cases, inl, inr, arith,
}
use bseal_cpp.Frame.Bytes.{equal_bytes}
use bseal_cpp.Archive.Path.{
  slash, dot, dot_dot, path_parts, starts_with_slash, relative_parts, parts, parts_are_safe,
  is_safe_relative_path, normal_push, normalize, ends_in_dots, lexically_normal, append_path,
  make_safe_output_path,
}

-- The parts that name something, last one first, on top of a stack.
unfoldable pub pushed : List (List ℕ) → List (List ℕ) → List (List ℕ)
pushed stack [] = stack
pushed stack (part ∷ rest) = pushed (if equal_bytes part dot then stack else part ∷ stack) rest

normalize-append :
    (stack xs ys : List (List ℕ)) → normalize stack (xs ++ ys) ≡ normalize (normalize stack xs) ys
unfolding normalize
normalize-append stack [] ys = refl
normalize-append stack (x ∷ xs) ys = normalize-append (normal_push stack x) xs ys

normalize_safe :
    (stack xs : List (List ℕ)) → parts_are_safe xs ≡ true → normalize stack xs ≡ pushed stack xs
unfolding normalize pushed parts_are_safe normal_push
normalize_safe stack [] h = refl
normalize_safe stack (x ∷ xs) h =
    ground (arith, normalize_safe stack xs, normalize_safe (x ∷ stack) xs)

abbrev pub NoDotDot : List (List ℕ) → Type 0
NoDotDot [] = Unit {0}
NoDotDot (x ∷ xs) = (equal_bytes x dot_dot ≡ false) × NoDotDot xs

NoDotDot-append : (xs ys : List (List ℕ)) → NoDotDot xs → NoDotDot ys → NoDotDot (xs ++ ys)
NoDotDot-append [] ys a b = b
NoDotDot-append (x ∷ xs) ys a b = (a.0, NoDotDot-append xs ys a.1 b)

-- What is pushed lands on top of the stack, and holds no ".."; if it is nothing, only dots were pushed.
pushed-append :
    (stack xs : List (List ℕ))
    → parts_are_safe xs ≡ true
    → (new : List (List ℕ)) × (pushed stack xs ≡ new ++ stack)
      × NoDotDot new
      × (new ≡ [] → ends_in_dots true xs ≡ true)
unfolding pushed parts_are_safe ends_in_dots
pushed-append stack [] h = ([], refl, tt, λ _. refl)
pushed-append stack (x ∷ xs) h = elim (Bool-cases (equal_bytes x dot)) [
  | inl skip ↦ rw skip (pushed-append stack xs (ground arith))
  | inr keep ↦
      let (new, e, clean, _) = pushed-append (x ∷ stack) xs (ground arith) in
      (
        new ++ (x ∷ []),
        rw keep (e ∙ sym (append_assoc new (x ∷ []) stack)),
        NoDotDot-append new (x ∷ []) clean (ground arith, tt),
        λ none. absurd (some_part new x none),
      )
]
  where
    some_part : (new : List (List ℕ)) (x : List ℕ) → new ++ (x ∷ []) ≡ [] → ⊥
    some_part [] x e = cc
    some_part (y ∷ new) x e = cc

-- A path that is not empty has a part.
path_parts-some :
    (after : Bool) (part cs : List ℕ)
    → (first : List ℕ) × (others : List (List ℕ)) × (path_parts after part cs ≡ first ∷ others)
unfolding path_parts
path_parts-some after part [] = (part, [], refl)
path_parts-some true part (c ∷ cs) = elim (Bool-cases (c == slash)) [
  | inl y ↦ rw y (path_parts-some true [] cs)
  | inr n ↦ rw n (path_parts-some false (c ∷ []) cs)
]
path_parts-some false part (c ∷ cs) = elim (Bool-cases (c == slash)) [
  | inl y ↦ rw y (part, path_parts true [] cs, refl)
  | inr n ↦ rw n (path_parts-some false (part ++ (c ∷ [])) cs)
]

-- What the tests of is_safe_relative_path give.
safe_parts :
    (path : List ℕ)
    → is_safe_relative_path path ≡ true
    → (starts_with_slash path ≡ false)
      × (parts_are_safe (parts path) ≡ true)
      × ((first : List ℕ) × (others : List (List ℕ)) × (parts path ≡ first ∷ others))
unfolding is_safe_relative_path parts relative_parts
safe_parts [] h = cc
safe_parts (c ∷ cs) h =
    let relative : starts_with_slash (c ∷ cs) ≡ false = ground arith in
    let safe : parts_are_safe (parts (c ∷ cs)) ≡ true = ground arith in
    (relative, safe, rw relative (path_parts-some false [] (c ∷ cs)))

ends_in_dots-append :
    (otherwise : Bool) (xs : List (List ℕ)) (y : List ℕ) (ys : List (List ℕ))
    → ends_in_dots otherwise (xs ++ (y ∷ ys)) ≡ ends_in_dots true (y ∷ ys)
unfolding ends_in_dots
ends_in_dots-append otherwise [] y ys = refl
ends_in_dots-append otherwise (x ∷ xs) y ys =
    ends_in_dots-append (equal_bytes x dot || equal_bytes x dot_dot) xs y ys

-- The parts of a root and safe parts behind it.
normal_below :
    (root : List (List ℕ)) (first : List ℕ) (others : List (List ℕ))
    → parts_are_safe (first ∷ others) ≡ true
    → (new : List (List ℕ)) × (lexically_normal (root ++ (first ∷ others))
        ≡ new ++ normalize [] root)
      × NoDotDot new
      × (new ≡ [] → lexically_normal (root ++ (first ∷ others)) ≡ [])
unfolding lexically_normal equal_bytes
normal_below root first others safe =
    let (new, e, clean, dots) = pushed-append (normalize [] root) (first ∷ others) safe in
    let stack : normalize [] (root ++ (first ∷ others)) ≡ new ++ normalize [] root =
      normalize-append [] root (first ∷ others)
      ∙ normalize_safe (normalize [] root) (first ∷ others) safe
      ∙ e in
    let last = ends_in_dots-append false root first others in
    elim (Bool-cases (ends_in_dots true (first ∷ others))) [
      | inl y ↦ rw (last, y, stack) (trailing new (normalize [] root) clean)
      | inr n ↦ rw (last, n) (new, stack, clean, λ none. cc (sym n, dots none))
    ]
  where
    trailing :
        (new root : List (List ℕ))
        → NoDotDot new
        → (made : List (List ℕ)) × ((elim (new ++ root) [
          | [] ↦ []
          | top ∷ below ↦ [] ∷ top ∷ below
        ])
            ≡ made ++ root)
          × NoDotDot made
          × (made ≡ [] → (elim (new ++ root) [ [] ↦ [] | top ∷ below ↦ [] ∷ top ∷ below ]) ≡ [])
    trailing [] [] clean = ([], refl, tt, λ _. refl)
    trailing [] (r ∷ root) clean = ([] ∷ [], refl, (refl, tt), λ e. cc)
    trailing (x ∷ new) root clean = ([] ∷ x ∷ new, refl, (refl, clean), λ e. cc)

-- Whatever make_safe_output_path returns lies below the output root: the normalised root survives
-- whole, and what stands behind it (here in front: the last part comes first) has no ".." and is at least
-- one part, which may be an empty one behind a trailing slash, unless the result is the root directory.
pub make_safe_output_path_confined :
    (root : List (List ℕ)) (path : List ℕ) (out : List (List ℕ))
    → make_safe_output_path root path ≡ ok out
    → (new : List (List ℕ)) × (out ≡ new ++ normalize [] root)
      × NoDotDot new
      × (new ≡ [] → out ≡ [])
unfolding make_safe_output_path append_path
make_safe_output_path_confined root path out h = elim (Bool-cases (is_safe_relative_path path)) [
  | inl safe ↦
      let (relative, ok_parts, (first, others, some_part)) = safe_parts path safe in
      let made : lexically_normal (root ++ parts path) ≡ out =
        ok_injective (rw (safe, relative, make_safe_output_path, append_path) at h) in
      let (new, e, clean, nothing) =
        normal_below root first others (subst (λ l. parts_are_safe l ≡ true) some_part ok_parts) in
      let result : lexically_normal (root ++ (first ∷ others)) ≡ out =
        ap (λ l. lexically_normal (root ++ l)) (sym some_part) ∙ made in
      (new, sym result ∙ e, clean, λ none. sym result ∙ nothing none)
  | inr unsafe ↦ cc (rw (unsafe, make_safe_output_path) at h)
]
