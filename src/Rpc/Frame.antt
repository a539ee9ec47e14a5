-- ===== src/Rpc/Frame.antt =====
-- internal/rpc/dispatch.go: the little-endian frames that Serve reads and writeResponse writes.
-- A Go string or []byte is its list of bytes; a connection that is read is the bytes still to come,
-- and its end is the error that every read returns once they run out.
pub mod Parse
pub mod Stream
use nunya_core.Common.{
  ℕ, zero, suc, ◌+◌, ◌*◌, ◌/◌, ◌%◌, Option, none, some, List, [], ◌∷◌, ◌++◌, length, take, drop,
  ltb, if◌then◌else◌, bind_option,
}

-- binary.LittleEndian.PutUint32, with the conversion to uint32 by the modulus.
unfoldable pub put_u32 : ℕ → List ℕ
put_u32 n = n % 256 ∷ n / 256 % 256 ∷ n / 65536 % 256 ∷ n / 16777216 % 256 ∷ []

unfoldable pub put_u16 : ℕ → List ℕ
put_u16 n = n % 256 ∷ n / 256 % 256 ∷ []

-- A read from the connection: what it yields and the bytes still to come, or an error.
abbrev pub Reader {ℓ} : Type ℓ → Type ℓ
Reader A = List ℕ → Option (A × List ℕ)

infixl 5 ◌>>=◌
abbrev pub ◌>>=◌ {ℓ κ} : {A : Type ℓ} {B : Type κ} → Reader A → (A → Reader B) → Reader B
◌>>=◌ m f s = bind_option (m s) (λ p. f p.0 p.1)

abbrev pub yield {ℓ} : {A : Type ℓ} → A → Reader A
yield a s = some (a, s)

-- io.ReadFull: all `n` bytes, or an error.
unfoldable pub read_full : ℕ → Reader (List ℕ)
read_full n s = if ltb (length s) n then none else some (take n s, drop n s)

-- binary.Read of a uint32 and of a uint16, little-endian.
unfoldable pub read_u32 : Reader ℕ
read_u32 (a ∷ b ∷ c ∷ d ∷ s) = some (a + b * 256 + c * 65536 + d * 16777216, s)
read_u32 s = none

unfoldable pub read_u16 : Reader ℕ
read_u16 (a ∷ b ∷ s) = some (a + b * 256, s)
read_u16 s = none

pub record Request : Type 0 where
  pub id : ℕ
  pub method : List ℕ
  pub payload : List ℕ

-- One round of the loop of Serve up to the goroutine: `none` is the `return` after a failed read.
unfoldable pub read_request : Reader Request
read_request = do
  id ← read_u32
  method_len ← read_u16
  method ← read_full method_len
  payload_len ← read_u32
  payload ← read_full payload_len
  yield (record { id = id; method = method; payload = payload })

-- The loop of Serve: the requests that it starts, in order. `none` is fuel that ran out.
pub serve_loop : ℕ → List ℕ → Option (List Request)
serve_loop zero s = none
serve_loop (suc fuel) s = elim (read_request s) [
  | none ↦ some []
  | some (r, rest) ↦ bind_option (serve_loop fuel rest) (λ rs. some (r ∷ rs))
]

-- Each round takes ten bytes at least, so one round more than the bytes is enough.
unfoldable pub serve : List ℕ → Option (List Request)
serve s = serve_loop (suc (length s)) s

pub record Response : Type 0 where
  pub id : ℕ
  pub status : ℕ
  pub payload : List ℕ

-- The nine bytes that writeResponse sends first.
unfoldable pub response_header : Response → List ℕ
response_header r = put_u32 r.id ++ (r.status ∷ put_u32 (length r.payload))
