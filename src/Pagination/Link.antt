-- ===== src/Pagination/Link.antt =====
-- The link form of the cursor.
use weave_adapters.Prelude.{
  ℕ, zero, suc, ◌++◌, ◌⊎◌, ap₂, ◌≡◌, ◌≢◌, refl, sym, ap, ◌∙◌, Bool, true, false, List, [], ◌∷◌,
  none, arith, ◌==◌, if◌then◌else◌, Bool-cases, inl, inr,
}
use weave_adapters.Pagination.Keys.{Bytes, compare_bytes_refl, compare_bytes_eq}
use weave_adapters.Pagination.Token.{bytes_eq}
use weave_adapters.Pagination.Slice.{
  Url, without, set_value, trim_slashes, has_two_slashes, next_url,
}

-- the values of one query parameter
abbrev pub values : Bytes → List (Bytes × Bytes) → List Bytes
values k [] = []
values k ((j, v) ∷ q) = let rest = values k q in if bytes_eq j k then v ∷ rest else rest

values-without : (k : Bytes) (q : List (Bytes × Bytes)) → values k (without k q) ≡ []
values-without k [] = refl
values-without k ((j, v) ∷ q) = elim (Bool-cases (bytes_eq j k)) [
  | inl e ↦ rw e (values-without k q)
  | inr e ↦ rw e (rw e (values-without k q))
]

bytes_eq-eq : (a b : Bytes) → bytes_eq a b ≡ true → a ≡ b
bytes_eq-eq a b h = ground (arith, compare_bytes_eq a b)

bytes_eq_refl : (a : Bytes) → bytes_eq a a ≡ true
bytes_eq_refl a = rw (compare_bytes_refl a)

bytes_eq_ne : (a b : Bytes) → a ≢ b → bytes_eq a b ≡ false
bytes_eq_ne a b n = elim (Bool-cases (bytes_eq a b)) [
  | inl e ↦ absurd (n (bytes_eq-eq a b e))
  | inr e ↦ e
]

values-without_ne :
    (k j : Bytes) (q : List (Bytes × Bytes)) → k ≢ j → values j (without k q) ≡ values j q
values-without_ne k j [] n = refl
values-without_ne k j ((i, v) ∷ q) n = elim (Bool-cases (bytes_eq i k)) [
  | inl e ↦
      rw e (rw (bytes_eq_ne i j (λ x. n (sym (bytes_eq-eq i k e) ∙ x))) (values-without_ne k j q n))
  | inr e ↦ rw e (rw (values-without_ne k j q n))
]

abbrev starts_with_slash : Bytes → Bool
starts_with_slash [] = false
starts_with_slash (c ∷ cs) = c == b'/'

abbrev slashes : ℕ → Bytes
slashes zero = []
slashes (suc n) = b'/' ∷ slashes n

-- A path without its leading slashes: there were `n` of them.
abbrev IsTrimmed : Bytes → Bytes → Type 0
IsTrimmed path rest = (n : ℕ) × (path ≡ slashes n ++ rest) × (starts_with_slash rest ≡ false)

trim_slashes-IsTrimmed : (cs : Bytes) → IsTrimmed cs (trim_slashes cs)
trim_slashes-IsTrimmed [] = (0, refl, refl)
trim_slashes-IsTrimmed (c ∷ cs) = elim (Bool-cases (c == b'/')) [
  | inl e ↦
      let (n, same, first) = trim_slashes-IsTrimmed cs in
      rw e (suc n, ap₂ (λ x xs. x ∷ xs) (ground (arith, e)) same, first)
  | inr e ↦ rw e (0, refl, e)
]

-- The path of the link and its escaped form are the request's; only a path that begins with two
-- slashes, which a browser takes for a host, loses all of them but one, and its escaped form.
abbrev pub KeepsPath : Url → Url → Type 0
KeepsPath u link =
    ((has_two_slashes u.path ≡ false) × (link.path ≡ u.path) × (link.raw_path ≡ u.raw_path))
    ⊎ ((has_two_slashes u.path ≡ true)
        × ((rest : Bytes) × IsTrimmed u.path rest × (link.path ≡ b'/' ∷ rest))
        × (link.raw_path ≡ []))

-- The link names no scheme, host, user or fragment, and its path cannot be read as a host; it
-- carries exactly one page token, the new one, and every other parameter with the values that the
-- request had.
pub record IsLocal (param : Bytes) (u : Url) (token : Bytes) (link : Url) : Type 0 where
  pub no_scheme : link.scheme ≡ []
  pub no_host : link.host ≡ []
  pub no_user : link.user ≡ none
  pub no_fragment : (link.fragment ≡ []) × (link.raw_fragment ≡ [])
  pub no_authority : has_two_slashes link.path ≡ false
  pub one_token : values param link.query ≡ token ∷ []
  pub others_kept : (k : Bytes) → param ≢ k → values k link.query ≡ values k u.query
  pub path_kept : KeepsPath u link

one_token_lem :
    (param token : Bytes) (q : List (Bytes × Bytes))
    → values param (set_value param token q) ≡ token ∷ []
one_token_lem param token q = rw (bytes_eq_refl param) (ap (◌∷◌ token) (values-without param q))

others_kept_lem :
    (param token k : Bytes) (q : List (Bytes × Bytes))
    → param ≢ k
    → values k (set_value param token q) ≡ values k q
others_kept_lem param token k q n = rw (bytes_eq_ne param k n) (values-without_ne param k q n)

not_two_slashes :
    (rest : Bytes) → starts_with_slash rest ≡ false → has_two_slashes (b'/' ∷ rest) ≡ false
not_two_slashes [] h = refl
not_two_slashes (c ∷ cs) h = h

-- Whatever URL the request came with, the link of the next page is as `IsLocal` says: it is local to
-- the adapter, and keeps the request's path, its escaped form and the parameters beside the page
-- token, except that leading slashes become one.
pub next_url-IsLocal :
    (param : Bytes) (u : Url) (token : Bytes) → IsLocal param u token (next_url param u token)
unfolding next_url
next_url-IsLocal param u token = go (has_two_slashes u.path) refl
  where
    local : Url
    local = record u {
      scheme = [];
      host = [];
      user = none;
      fragment = [];
      raw_fragment = [];
      query = set_value param token u.query;
    }

    trimmed : IsTrimmed u.path (trim_slashes u.path)
    trimmed = trim_slashes-IsTrimmed u.path

    go :
        (b : Bool)
        → has_two_slashes u.path ≡ b
        → IsLocal param u token
            (if b then record local { path = b'/' ∷ trim_slashes u.path; raw_path = [] } else local)
    go true e = record {
      no_scheme = refl;
      no_host = refl;
      no_user = refl;
      no_fragment = (refl, refl);
      no_authority = not_two_slashes (trim_slashes u.path) trimmed.2;
      one_token = one_token_lem param token u.query;
      others_kept = λ k n. others_kept_lem param token k u.query n;
      path_kept = inr (e, (trim_slashes u.path, trimmed, refl), refl);
    }
    go false e = record {
      no_scheme = refl;
      no_host = refl;
      no_user = refl;
      no_fragment = (refl, refl);
      no_authority = e;
      one_token = one_token_lem param token u.query;
      others_kept = λ k n. others_kept_lem param token k u.query n;
      path_kept = inl (e, refl, refl);
    }
