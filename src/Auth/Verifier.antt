-- ===== src/Auth/Verifier.antt =====
-- internal/core/auth/verifier.go: which token is let in.
use weave_adapters.Prelude.Text.{Text, text_eq}
use weave_adapters.Prelude.{ℕ, suc, Option, none, some, [], ◌∷◌, if◌then◌else◌}
use weave_adapters.Auth.Store.{Entry, Store, expired, Crypto, hash_of}

pub data Verified : Type 0 where
  known : Entry → Verified
  unknown_token : Verified
  token_expired : Entry → Verified

-- `Usable`, at the instant `now`
unfoldable pub usable : ℕ → Store → ℕ
usable now [] = 0
usable now (e ∷ s) = let rest = usable now s in if expired e now then rest else suc rest

-- the loop of `Verify`: the last entry with that hash
unfoldable pub match_hash : Text → Store → Option Entry → Option Entry
match_hash presented [] found = found
match_hash presented (e ∷ s) found =
    match_hash presented s (if text_eq presented e.hash then some e else found)

unfoldable pub judge : ℕ → Option Entry → Verified
judge now none = unknown_token
judge now (some e) = if expired e now then token_expired e else known e

unfoldable pub verify : Crypto → ℕ → Store → Text → Verified
verify c now entries token = judge now (match_hash (hash_of c token) entries none)
