-- ===== src/Http/Recorder.antt =====
-- internal/core/httpx/recorder.go: a writer that counts, and that it changes nothing.
use weave_adapters.Prelude.{
  ℕ, ◌+◌, ◌≡◌, ◌⊎◌, ◌∙◌, refl, ap, Bool, true, false, List, [], ◌∷◌, if◌then◌else◌, arith, length,
  length-append, inr,
}
use weave_adapters.Http.Writer.{
  Headers, Response, new_response, write_header, write, with_header, set, del, Call, setting,
  deleting, heading, writing, call, serve,
}

pub record Recorder : Type 0 where
  pub inner : Response
  pub status : ℕ
  pub bytes : ℕ
  pub wrote : Bool

unfoldable pub new_recorder : Response → Recorder
new_recorder w = record { inner = w; status = 200; bytes = 0; wrote = false }

unfoldable pub record_header : ℕ → Recorder → Recorder
record_header code r =
    if r.wrote
    then r
    else record r { inner = write_header code r.inner; wrote = true; status = code }

unfoldable pub record_write : List ℕ → Recorder → Recorder
record_write b r = record r { inner = write b r.inner; bytes = r.bytes + length b; wrote = true }

unfoldable pub record_call : Call → Recorder → Recorder
unfolding record_header record_write
record_call (setting k v) r = record r { inner = with_header (set k v) r.inner }
record_call (deleting k) r = record r { inner = with_header (del k) r.inner }
record_call (heading code) r = record_header code r
record_call (writing b) r = record_write b r

unfoldable pub record_calls : List Call → Recorder → Recorder
record_calls [] r = r
record_calls (c ∷ cs) r = record_calls cs (record_call c r)

-- The recorder knows of the response what there is to know.
pub record Knows (r : Recorder) : Type 0 where
  pub wrote_is : r.wrote ≡ r.inner.sent
  pub status_is : r.status ≡ r.inner.status
  pub bytes_are : r.bytes ≡ length r.inner.body
  pub unsent : (r.inner.sent ≡ true) ⊎ (r.inner.status ≡ 200)

record_call-Knows : (c : Call) (r : Recorder) → Knows r → Knows (record_call c r)
unfolding record_call write_header write
record_call-Knows (setting k v) r h = ground arith
record_call-Knows (deleting k) r h = ground arith
record_call-Knows (heading code) r h = ground arith
record_call-Knows (writing b) r h = ground (arith, length-append r.inner.body b)

record_call-inner : (c : Call) (r : Recorder) → Knows r → (record_call c r).inner ≡ call c r.inner
unfolding record_call write_header write call
record_call-inner (setting k v) r h = refl
record_call-inner (deleting k) r h = refl
record_call-inner (heading code) r h = ground arith
record_call-inner (writing b) r h = refl

record_calls-Knows :
    (cs : List Call) (r : Recorder)
    → Knows r
    → Knows (record_calls cs r) × ((record_calls cs r).inner ≡ serve cs r.inner)
unfolding record_calls serve
record_calls-Knows [] r h = (h, refl)
record_calls-Knows (c ∷ cs) r h =
    let (k, e) = record_calls-Knows cs (record_call c r) (record_call-Knows c r h) in
    (k, e ∙ ap (serve cs) (record_call-inner c r h))

-- Behind a recorder the response is what it would be without one, and the recorder has its status,
-- its length and whether it was begun.
pub new_recorder-Knows :
    (cs : List Call) (h : Headers)
    → Knows (record_calls cs (new_recorder (new_response h)))
      × ((record_calls cs (new_recorder (new_response h))).inner ≡ serve cs (new_response h))
unfolding new_recorder
new_recorder-Knows cs h =
    record_calls-Knows cs (new_recorder (new_response h))
      (record { wrote_is = refl; status_is = refl; bytes_are = refl; unsent = inr refl })
