-- ===== src/Http/Writer.antt =====
-- A response as Go's net/http builds it, and a handler as the calls that it makes on its writer. A
-- write does not fail, and a status is a final one, from 200 on.
use weave_adapters.Prelude.Text.{Text}
use weave_adapters.Prelude.{
  ℕ, Bool, true, false, List, [], ◌∷◌, ◌++◌, String, str_eq, if◌then◌else◌,
}

abbrev pub Headers : Type 0
Headers = List (String × Text)

-- `Header.Get`, on a key with one value
unfoldable pub get : String → Headers → Text
get k [] = []
get k (e ∷ h) = if str_eq e.0 k then e.1 else get k h

-- `Header.Del`
unfoldable pub del : String → Headers → Headers
del k [] = []
del k (e ∷ h) = let rest = del k h in if str_eq e.0 k then rest else e ∷ rest

-- `Header.Set`
unfoldable pub set : String → Text → Headers → Headers
set k v h = (k, v) ∷ del k h

-- `header` is what `Header()` gives, `sent_header` what went out with the status. Before that the
-- status is the one that a first write would send.
pub record Response : Type 0 where
  pub header : Headers
  pub sent : Bool
  pub status : ℕ
  pub sent_header : Headers
  pub body : List ℕ

abbrev pub new_response : Headers → Response
new_response h = record { header = h; sent = false; status = 200; sent_header = []; body = [] }

-- `WriteHeader`: the first one counts
unfoldable pub write_header : ℕ → Response → Response
write_header code w =
    if w.sent then w else record w { sent = true; status = code; sent_header = w.header }

-- `Write`
unfoldable pub write : List ℕ → Response → Response
unfolding write_header
write b w = let v = write_header 200 w in record v { body = v.body ++ b }

abbrev pub with_header : (Headers → Headers) → Response → Response
with_header f w = record w { header = f w.header }

-- a call that a handler makes
pub data Call : Type 0 where
  setting : String → Text → Call
  deleting : String → Call
  heading : ℕ → Call
  writing : List ℕ → Call

unfoldable pub call : Call → Response → Response
call (setting k v) w = with_header (set k v) w
call (deleting k) w = with_header (del k) w
call (heading code) w = write_header code w
call (writing b) w = write b w

-- the calls straight on the connection
unfoldable pub serve : List Call → Response → Response
serve [] w = w
serve (c ∷ cs) w = serve cs (call c w)

-- the handler has returned: the server sends 200 where nothing was sent
unfoldable pub finish : Response → Response
finish w = write_header 200 w
