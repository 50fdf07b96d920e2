-- ===== src/Auth/Tests.antt =====
-- A minted token, its store and its header, with a stand-in for SHA-256.
use weave_adapters.Prelude.Text.{Text, text, text_eq, trim_left}
use weave_adapters.Prelude.{
  ℕ, zero, suc, sym, ◌∙◌, ◌≡◌, ◌↔◌, refl, true, false, none, some, List, [], ◌∷◌, arith, inl, inr,
}
use weave_adapters.Auth.Store.{
  Entry, ok, expired, Crypto, hash_of, generate, mint, minted_entry, add, find, is_label, every,
  hex,
}
use weave_adapters.Auth.Minted.{IsSha256}
use weave_adapters.Auth.Verifier.{verify, judge, match_hash}
use weave_adapters.Auth.Bearer.{
  accepted, denied, api_022, api_023, authenticate, bearer_token, cut_space, equal_fold,
}
use weave_adapters.Auth.Admission.{HasOwnHashes, IsAdmitted, authenticate-IsAdmitted_iff}
use weave_adapters.Events.Catalog.{client_events}
use weave_adapters.Apierror.Write.{Problem, Request, Written, written}
use weave_adapters.Http.Writer.{Response, new_response}
use weave_adapters.Auth.Middleware.{bearer}
use weave_adapters.Auth.Blind.{response_of, bearer-IsBlind}
use weave_adapters.Auth.Save.{Files, Outcomes, IsAtomic, all_succeed, save, save-IsAtomic}

unfoldable copies : ℕ → List ℕ
copies zero = []
copies (suc n) = 171 ∷ copies n

-- 32 bytes, whatever the text
abbrev crypto : Crypto
crypto = record { sum = λ t. copies 32; encode_base64 = λ bytes. text "abc" }

crypto-IsSha256 : IsSha256 crypto
unfolding copies
crypto-IsSha256 = record { size = λ t. refl; bytes = λ t. ground arith }

abbrev token : Text
token = text "wadapt_abc"

abbrev entry : Entry
entry = minted_entry crypto (text "ci-1") 5 (some 9) token

minted : mint crypto (text "ci-1") 5 (some 9) (some (1 ∷ [])) [] ≡ ok (token, entry ∷ [])
unfolding mint generate add find is_label every text
minted = refl

entry_added : add entry [] ≡ ok (entry ∷ [])
unfolding add find is_label every text
entry_added = refl

entry-HasOwnHashes : HasOwnHashes (entry ∷ [])
entry-HasOwnHashes d e (inl p) (inl q) h = sym p ∙ q
entry-HasOwnHashes d e (inl p) (inr i) h = elim i [ ]
entry-HasOwnHashes d e (inr i) j h = elim i [ ]

abbrev headers : List Text
headers = text "Bearer wadapt_abc" ∷ []

authenticate-IsAdmitted_iff_example :
    (authenticate crypto 8 (entry ∷ []) headers ≡ accepted entry)
    ↔ IsAdmitted crypto 8 (entry ∷ []) headers entry
authenticate-IsAdmitted_iff_example =
    authenticate-IsAdmitted_iff crypto 8 (entry ∷ []) entry-HasOwnHashes headers entry

let_in : authenticate crypto 8 (entry ∷ []) headers ≡ accepted entry
unfolding authenticate text bearer_token cut_space equal_fold trim_left verify judge match_hash
    text_eq hash_of hex expired copies
let_in = refl

-- The rename fails.
abbrev outcomes : Outcomes
outcomes = record {
  created = true;
  written = true;
  part = [];
  synced = true;
  closed = true;
  chmodded = true;
  renamed = false;
  dir_synced = true;
  removed = true;
  first_mode = 384;
}

abbrev before : Files
before = record { target = none; temporary = none }

save-IsAtomic_example :
    IsAtomic outcomes before (7 ∷ []) (save outcomes (some (7 ∷ [])) before)
    × ((save outcomes (some (7 ∷ [])) before).ok ≡ all_succeed outcomes)
save-IsAtomic_example = save-IsAtomic outcomes before (7 ∷ [])

abbrev request : Request
request = record {
  method = text "GET";
  path = text "/api/v1/scopes";
  remote_addr = text "192.0.2.1:1234";
  context = none;
  done = false;
}

abbrev encode : Problem → List ℕ
encode p = p.status ∷ p.detail

-- one token that the store does not have, and one whose time is over
unknown_denied : authenticate crypto 8 [] headers ≡ denied api_022
unfolding authenticate text bearer_token cut_space equal_fold trim_left verify judge match_hash
    text_eq hash_of hex expired copies
unknown_denied = refl

expired_denied : authenticate crypto 10 (entry ∷ []) headers ≡ denied (api_023 entry)
unfolding authenticate text bearer_token cut_space equal_fold trim_left verify judge match_hash
    text_eq hash_of hex expired copies
expired_denied = refl

abbrev served : Request → Response → Written
served r w = written w none

bearer-IsBlind_example :
    response_of (
      bearer client_events encode
        (λ t. [])
        crypto
        8
        []
        (λ r. false)
        served
        request
        headers
        (new_response []))
    ≡ response_of (
        bearer client_events encode
          (λ t. [])
          crypto
          10
          (entry ∷ [])
          (λ r. false)
          served
          request
          headers
          (new_response []))
bearer-IsBlind_example =
    bearer-IsBlind encode (λ t. []) request crypto 8 10 [] (entry ∷ []) (λ r. false) served headers
      headers entry (new_response []) refl unknown_denied expired_denied
