-- ===== src/Http/Transparent.antt =====
-- What a client sees through `Conditional` of internal/core/etag/handler.go, beside what it would see
-- without it.
use weave_adapters.Prelude.Text.{Text}
use weave_adapters.Prelude.{
  ℕ, ◌+◌, ◌≡◌, ◌⊎◌, refl, true, false, List, [], ◌∷◌, arith, length, leb, ◌==◌, Bool-cases, inl,
  inr,
}
use weave_adapters.Etag.{matches}
use weave_adapters.Http.Writer.{
  Headers, Response, new_response, write_header, write, Call, setting, deleting, heading, writing,
  call, serve, finish,
}
use weave_adapters.Http.Conditional.{
  CaptureWriter, new_capture, capture_header, capture_write, capture_call, capture_calls, Request,
  tagged, released, is_safe, conditional_up_to,
}

-- While it holds back: nothing has gone out, and the buffer is what would have.
record IsHeld (c : CaptureWriter) (d : Response) : Type 0 where
  held : c.overflowed ≡ false
  quiet : c.inner.sent ≡ false
  empty : c.inner.body ≡ []
  body : d.body ≡ c.body
  status : d.status ≡ c.status
  begun : d.sent ≡ c.wrote
  default : (c.wrote ≡ true) ⊎ (c.status ≡ 200)

-- After the overflow: all has gone out.
record IsPassed (c : CaptureWriter) (d : Response) : Type 0 where
  passed : c.overflowed ≡ true
  sent : c.inner.sent ≡ true
  begun : d.sent ≡ true
  status : c.inner.status ≡ d.status
  body : c.inner.body ≡ d.body

abbrev IsBeside : CaptureWriter → Response → Type 0
IsBeside c d = IsHeld c d ⊎ IsPassed c d

capture_write-IsHeld :
    (limit : ℕ) (b : List ℕ) (c : CaptureWriter) (d : Response)
    → IsHeld c d
    → IsBeside (capture_write limit b c) (write b d)
unfolding capture_write write write_header
capture_write-IsHeld limit b c d h = elim (Bool-cases (leb (length c.body + length b) limit)) [
  | inl l ↦ inl (
      simp (h.held, l)
        (record {
          held = refl;
          quiet = h.quiet;
          empty = h.empty;
          body = ground (arith, h);
          status = ground (arith, h);
          begun = ground (arith, h);
          default = inl refl;
        }))
  | inr l ↦ inr (
      simp (h.held, l)
        (record {
          passed = refl;
          sent = ground (arith, h);
          begun = ground (arith, h);
          status = ground (arith, h);
          body = ground (arith, h);
        }))
]

capture_call-IsBeside :
    (limit : ℕ) (k : Call) (c : CaptureWriter) (d : Response)
    → IsBeside c d
    → IsBeside (capture_call limit k c) (call k d)
unfolding capture_call call capture_header write_header
capture_call-IsBeside limit (setting k v) c d (inl h) = inl (ground arith)
capture_call-IsBeside limit (setting k v) c d (inr h) = inr (ground arith)
capture_call-IsBeside limit (deleting k) c d (inl h) = inl (ground arith)
capture_call-IsBeside limit (deleting k) c d (inr h) = inr (ground arith)
capture_call-IsBeside limit (heading code) c d (inl h) = inl (ground arith)
capture_call-IsBeside limit (heading code) c d (inr h) = inr (ground arith)
capture_call-IsBeside limit (writing b) c d (inl h) = capture_write-IsHeld limit b c d h
capture_call-IsBeside limit (writing b) c d (inr h) =
    inr (unfold capture_write write in ground arith)

capture_calls-IsBeside :
    (limit : ℕ) (ks : List Call) (c : CaptureWriter) (d : Response)
    → IsBeside c d
    → IsBeside (capture_calls limit ks c) (serve ks d)
unfolding capture_calls serve
capture_calls-IsBeside limit [] c d h = h
capture_calls-IsBeside limit (k ∷ ks) c d h =
    capture_calls-IsBeside limit ks (capture_call limit k c) (call k d)
      (capture_call-IsBeside limit k c d h)

new_capture-IsBeside : (h : Headers) → IsBeside (new_capture (new_response h)) (new_response h)
unfolding new_capture
new_capture-IsBeside h = inl (record {
  held = refl;
  quiet = refl;
  empty = refl;
  body = refl;
  status = refl;
  begun = refl;
  default = inr refl;
})

-- `r` has the status and the body of `d`; or it is a 304 with no body, where `d` is a 200 whose tag
-- the request already has.
abbrev pub IsSameOrKnown : (List ℕ → Text) → Request → Response → Response → Type 0
IsSameOrKnown compute q r d =
    ((r.status ≡ d.status) × (r.body ≡ d.body))
    ⊎ ((r.status ≡ 304)
        × (r.body ≡ [])
        × (d.status ≡ 200)
        × (matches q.if_none_match (compute d.body) ≡ true))

module _ (compute : List ℕ → Text) (q : Request) (current : q.canceled ≡ false) where
  released-IsHeld :
      (c : CaptureWriter) (d : Response)
      → IsHeld c d
      → IsSameOrKnown compute q (finish (released compute q c)) (finish d)
  unfolding released tagged finish write write_header
  released-IsHeld c d h = elim (Bool-cases (c.status == 200)) [
    | inl e ↦ elim (Bool-cases (matches q.if_none_match (compute c.body))) [
      | inl m ↦ inr (ground (arith, h, m, e))
      | inr m ↦ inl (ground (arith, h, m, e))
    ]
    | inr e ↦ inl (ground (arith, h, e))
  ]

  released-IsPassed :
      (c : CaptureWriter) (d : Response)
      → IsPassed c d
      → IsSameOrKnown compute q (finish (released compute q c)) (finish d)
  unfolding released finish write_header
  released-IsPassed c d h = inl (ground (arith, h))

  released-IsSameOrKnown :
      (c : CaptureWriter) (d : Response)
      → IsBeside c d
      → IsSameOrKnown compute q (finish (released compute q c)) (finish d)
  released-IsSameOrKnown c d (inl h) = released-IsHeld c d h
  released-IsSameOrKnown c d (inr h) = released-IsPassed c d h

  -- Behind `Conditional`, where the client has not gone away, a fresh response ends with the status and
  -- the body that the handler gives it; or with a 304 and no body, where the handler gives a 200 whose
  -- tag the request names.
  pub conditional-IsSameOrKnown :
      (limit : ℕ) (ks : List Call) (h : Headers)
      → IsSameOrKnown compute q
          (finish (conditional_up_to limit compute q ks (new_response h)))
          (finish (serve ks (new_response h)))
  unfolding conditional_up_to
  conditional-IsSameOrKnown limit ks h = elim (Bool-cases (is_safe q.method)) [
    | inl g ↦ rw g (
        released-IsSameOrKnown (capture_calls limit ks (new_capture (new_response h)))
          (serve ks (new_response h))
          (capture_calls-IsBeside limit ks (new_capture (new_response h)) (new_response h)
            (new_capture-IsBeside h)))
    | inr g ↦ rw g (inl (refl, refl))
  ]
