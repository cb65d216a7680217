-- ===== src/Util/Mime.antt =====
-- What the binary search of src/protocol/halmos_http_utils.c finds in a table that is not sorted.
use halmos.Base.{
  ℕ, zero, suc, ◌+◌, ◌-◌, ◌/◌, ◌≤◌, ◌<◌, All, ◌≡◌, ◌⊎◌, refl, sym, ◌∙◌, ap, subst, inl, inr, true,
  false, Option, some, none, List, [], ◌∷◌, ltb, if◌then◌else◌, Bool-cases, length, get_or, codes,
  streq, streq-eq, arith,
}
use halmos.Util.{
  Sign, less, equal, greater, strcmp, mime_types, last_dot, search, or_default, type_from_dot,
  get_mime_type,
}

equal-streq : (s t : List ℕ) → strcmp s t ≡ equal → streq s t ≡ true
unfolding strcmp streq
equal-streq [] [] h = refl
equal-streq [] (y ∷ ys) h = absurd (ground (arith, h))
equal-streq (x ∷ xs) [] h = absurd (ground (arith, h))
equal-streq (x ∷ xs) (y ∷ ys) h = ground (arith, equal-streq xs ys)

Sign_cases : (x : Sign) → (x ≡ equal) ⊎ ((x ≡ less) ⊎ (x ≡ greater))
Sign_cases equal = inl refl
Sign_cases less = inr (inl refl)
Sign_cases greater = inr (inr refl)

-- A table without ".js", from its head on.
unfoldable pub lookup : List (List ℕ × List ℕ) → List ℕ → List ℕ
lookup [] dot = codes "application/octet-stream"
lookup ((ext, type) ∷ table) dot = if streq dot ext then type else lookup table dot

abbrev pub found_types : List (List ℕ × List ℕ)
found_types =
    (codes ".css", codes "text/css")
    ∷ (codes ".gif", codes "image/gif")
    ∷ (codes ".html", codes "text/html")
    ∷ (codes ".ico", codes "image/x-icon")
    ∷ (codes ".jpg", codes "image/jpeg")
    ∷ (codes ".png", codes "image/png")
    ∷ (codes ".txt", codes "text/plain")
    ∷ []

All-get_or :
    {A : Type 0} (P : A → Type 0) (xs : List A) (i : ℕ) (d : A)
    → All P xs
    → i < length xs
    → P (get_or xs i d)
All-get_or P [] i d h small = absurd (omega arith)
All-get_or P (x ∷ xs) zero d (h, hs) small = h
All-get_or P (x ∷ xs) (suc i) d (h, hs) small = All-get_or P xs i d hs (omega arith)

module _ (dot : List ℕ) where
  -- A string that is not in the table.
  search-none :
      (fuel low top : ℕ)
      → All (λ entry. streq dot entry.0 ≡ false) mime_types
      → top ≤ 8
      → search fuel dot low top ≡ none
  unfolding search
  search-none zero low top h small = refl
  search-none (suc fuel) low top h small =
      let mid = (low + top - 1) / 2 in
      elim (Bool-cases (ltb low top)) [
        | inr e ↦ rw e refl
        | inl e ↦ elim (Sign_cases (strcmp dot (get_or mime_types mid ([], [])).0)) [
          | inl same ↦ absurd (
              ground (
                arith,
                equal-streq dot (get_or mime_types mid ([], [])).0 same,
                All-get_or (λ entry. streq dot entry.0 ≡ false) mime_types mid ([], []) h
                    (ground arith),
              ))
          | inr (inl before) ↦ rw (e, before) (search-none fuel low mid h (ground arith))
          | inr (inr behind) ↦ rw (e, behind) (search-none fuel (mid + 1) top h small)
        ]
      ]

  lookup-none :
      (table : List (List ℕ × List ℕ))
      → All (λ entry. streq dot entry.0 ≡ false) table
      → lookup table dot ≡ codes "application/octet-stream"
  unfolding lookup
  lookup-none [] h = refl
  lookup-none (entry ∷ table) (h, hs) = rw h (lookup-none table hs)

abbrev Agrees : List ℕ → Type 0
Agrees dot = or_default (search 8 dot 0 8) ≡ lookup found_types dot

by_cases :
    (dot : List ℕ) (table : List (List ℕ × List ℕ))
    → All (λ entry. Agrees entry.0) table
    → (All (λ entry. streq dot entry.0 ≡ false) table → Agrees dot)
    → Agrees dot
by_cases dot [] h otherwise = otherwise tt
by_cases dot ((ext, type) ∷ table) (h, hs) otherwise = elim (Bool-cases (streq dot ext)) [
  | inl e ↦ subst Agrees (sym (streq-eq dot ext e)) h
  | inr e ↦ by_cases dot table hs (λ rest. otherwise (e, rest))
]

in_table : All (λ entry. Agrees entry.0) mime_types
unfolding search lookup strcmp streq
in_table = (refl, (refl, (refl, (refl, (refl, (refl, (refl, (refl, tt))))))))

search-lookup : (dot : List ℕ) → Agrees dot
search-lookup dot = by_cases dot mime_types in_table (λ h.
    let (css, (gif, (html, (ico, (js, rest))))) = h in
    ap or_default (search-none dot 8 0 8 h (omega arith))
    ∙ sym (lookup-none dot found_types (css, (gif, (html, (ico, rest))))))

unfoldable pub expected_type : Option (List ℕ) → List ℕ
expected_type none = codes "text/html"
expected_type (some dot) = lookup found_types dot

type_from_dot-expected_type : (dot : Option (List ℕ)) → type_from_dot dot ≡ expected_type dot
unfolding type_from_dot expected_type
type_from_dot-expected_type none = refl
type_from_dot-expected_type (some dot) = search-lookup dot

-- For every file name, the binary search in the table, which is not sorted, gives the type that stands for the
-- extension, except that it never finds ".js": such a file has the default type
-- application/octet-stream. A name without a dot is text/html.
pub get_mime_type-expected_type :
    (file : List ℕ) → get_mime_type file ≡ expected_type (last_dot file)
unfolding get_mime_type
get_mime_type-expected_type file = type_from_dot-expected_type (last_dot file)
