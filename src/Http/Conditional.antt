-- ===== src/Http/Conditional.antt =====
-- internal/core/etag/handler.go: `Conditional` and its buffering writer. `compute` stands for the hash
-- of etag.go.
use weave_adapters.Prelude.Text.{Text}
use weave_adapters.Prelude.{
  ℕ, ◌+◌, ◌^◌, ◌*◌, Bool, true, false, not, List, [], ◌∷◌, ◌++◌, String, str_eq, leb, ◌==◌,
  if◌then◌else◌, length,
}
use weave_adapters.Etag.{matches}
use weave_adapters.Http.Writer.{
  Response, write_header, write, with_header, set, del, Call, setting, deleting, heading, writing,
  serve,
}

abbrev pub max_tagged_bytes : ℕ
max_tagged_bytes = 4 * 2 ^ 20

pub record CaptureWriter : Type 0 where
  pub inner : Response
  pub status : ℕ
  pub body : List ℕ
  pub wrote : Bool
  pub overflowed : Bool

unfoldable pub new_capture : Response → CaptureWriter
new_capture w = record { inner = w; status = 200; body = []; wrote = false; overflowed = false }

unfoldable pub capture_header : ℕ → CaptureWriter → CaptureWriter
capture_header code c = if c.wrote then c else record c { wrote = true; status = code }

-- the status and the bytes held back go out, and `b` behind them
abbrev pub overflow : List ℕ → CaptureWriter → CaptureWriter
overflow b c = record c {
  wrote = true;
  overflowed = true;
  inner = write b (write c.body (write_header c.status c.inner));
  body = [];
}

unfoldable pub capture_write : ℕ → List ℕ → CaptureWriter → CaptureWriter
capture_write limit b c =
    if c.overflowed
    then record c { wrote = true; inner = write b c.inner }
    else if leb (length c.body + length b) limit
    then record c { wrote = true; body = c.body ++ b }
    else overflow b c

unfoldable pub capture_call : ℕ → Call → CaptureWriter → CaptureWriter
unfolding capture_header capture_write
capture_call limit (setting k v) c = record c { inner = with_header (set k v) c.inner }
capture_call limit (deleting k) c = record c { inner = with_header (del k) c.inner }
capture_call limit (heading code) c = capture_header code c
capture_call limit (writing b) c = capture_write limit b c

unfoldable pub capture_calls : ℕ → List Call → CaptureWriter → CaptureWriter
capture_calls limit [] c = c
capture_calls limit (d ∷ ds) c = capture_calls limit ds (capture_call limit d c)

pub record Request : Type 0 where
  pub method : String
  pub if_none_match : Text
  -- whether the request's context has ended once the handler returns
  pub canceled : Bool

-- the answer with a tag
unfoldable pub tagged : Text → Text → ℕ → List ℕ → Response → Response
tagged tag if_none_match status body w =
    let v = with_header (set "ETag" tag) w in
    if matches if_none_match tag then write_header 304 v else write body (write_header status v)

-- behind the handler
unfoldable pub released : (List ℕ → Text) → Request → CaptureWriter → Response
released compute r c =
    if c.overflowed
    then c.inner
    else if r.canceled
    then c.inner
    else if not (c.status == 200)
    then write c.body (write_header c.status (with_header (del "ETag") c.inner))
    else tagged (compute c.body) r.if_none_match c.status c.body c.inner

abbrev pub is_safe : String → Bool
is_safe method = if str_eq method "GET" then true else str_eq method "HEAD"

-- `Conditional`, around a handler that makes these calls; `limit` is `MaxTaggedBytes`
unfoldable pub conditional_up_to : ℕ → (List ℕ → Text) → Request → List Call → Response → Response
conditional_up_to limit compute r calls w =
    if not (is_safe r.method)
    then serve calls w
    else released compute r (capture_calls limit calls (new_capture w))

unfoldable pub conditional : (List ℕ → Text) → Request → List Call → Response → Response
conditional = conditional_up_to max_tagged_bytes
