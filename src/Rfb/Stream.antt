-- ===== src/Rfb/Stream.antt =====
-- The readers and writers of local-agent/pkg/vnc/rfb/protocol.go over a connection. What the other
-- side sends arrives in pieces that the network chooses.
pub mod Chunks
pub mod Words
use conduit_bmc.Base.{
  ℕ, zero, suc, ◌+◌, ◌-◌, ◌*◌, ◌/◌, ◌%◌, ◌^◌, ltb, leb, ◌==◌, if◌then◌else◌, List, [], ◌∷◌, ◌++◌,
  Result, ok, err, length, take, drop, get_or, Text, Bool, true, false,
}

-- One result of the reader below `Read`: bytes, or an error that is not EOF. An empty list is EOF.
pub data Event : Type 0 where
  chunk : List ℕ → Event
  broken : Event

-- One result of the writer below `Write`: all bytes taken, only so many, or an error.
pub data Fault : Type 0 where
  short : ℕ → Fault
  refused : Fault
  healthy : Fault

-- The messages of the package's errors, each with the values that it reports.
pub data Error : Type 0 where
  immediate_eof : ℕ → Error
  eof_after : ℕ → ℕ → Error
  error_after : ℕ → ℕ → Error
  read_failed : ℕ → Error
  write_failed : Error
  incomplete_write : ℕ → ℕ → Error
  string_too_large : ℕ → Error
  version_length : ℕ → Error
  bad_prefix bad_suffix bad_major bad_separator bad_minor : Error
  unsupported_version : ℕ → ℕ → Error
  version_first : Error
  connection_failed : Text → Error
  no_reason : Error → Error
  unsupported_security_type : ℕ → Error
  none_offered : List ℕ → Error
  auth_failed : Text → Error
  auth_failed_silently : Error
  challenge_length : ℕ → Error
  bad_key : ℕ → Error
  password_missing : Error
  bad_selection : ℕ → Error
  no_server_init : Error

pub record Conn : Type 0 where
  pub incoming : List Event
  pub faults : List Fault
  pub sent : List ℕ

-- A method that reads or writes: what it returns, and the connection after it.
abbrev pub M {ℓ} : Type ℓ → Type ℓ
M A = Conn → Result Error A × Conn

abbrev pub continue {ℓ κ} :
    {A : Type ℓ} {B : Type κ} → Result Error A × Conn → (A → M B) → Result Error B × Conn
continue (ok a, c) f = f a c
continue (err e, c) f = (err e, c)

infixl 5 ◌>>=◌ ◌>>◌
abbrev pub ◌>>=◌ {ℓ κ} : {A : Type ℓ} {B : Type κ} → M A → (A → M B) → M B
◌>>=◌ m f c = continue (m c) f

abbrev pub ◌>>◌ {ℓ} : {B : Type ℓ} → M (Unit {0}) → M B → M B
m >> k = m >>= λ _. k

abbrev pub return {ℓ} : {A : Type ℓ} → A → M A
return a c = (ok a, c)

abbrev pub fail {ℓ} : {A : Type ℓ} → Error → M A
fail e c = (err e, c)

-- `if !test { return e }`
abbrev pub check : Bool → Error → M (Unit {0})
check true e = return tt
check false e = fail e

-- A call that cannot fail with the connection: a value, or the error that is returned.
abbrev pub lift {ℓ} : {A : Type ℓ} → Result Error A → M A
lift r c = (r, c)

-- The loop of `ReadFull`: `want` is `len(buf)`, and `got` is `buf[:totalRead]`.
unfoldable pub read_loop : ℕ → List ℕ → List Event → Result Error (List ℕ) × List Event
read_loop want got [] =
    if leb want (length got)
    then (ok got, [])
    else if length got == 0
    then (err (immediate_eof want), [])
    else (err (eof_after want (length got)), [])
read_loop want got (broken ∷ es) =
    if leb want (length got)
    then (ok got, broken ∷ es)
    else if length got == 0
    then (err (read_failed want), es)
    else (err (error_after want (length got)), es)
read_loop want got (chunk bs ∷ es) =
    let rest = read_loop want (got ++ bs) es in
    if leb want (length got)
    then (ok got, chunk bs ∷ es)
    else if leb (length bs) (want - length got)
    then rest
    else (ok (got ++ take (want - length got) bs), chunk (drop (want - length got) bs) ∷ es)

unfoldable pub read_bytes : ℕ → M (List ℕ)
read_bytes n c = let (r, es) = read_loop n [] c.incoming in (r, record c { incoming = es })

unfoldable pub read_u8 : M ℕ
read_u8 = do buf ← read_bytes 1; return (get_or buf 0 0)

-- `binary.BigEndian.Uint32`
unfoldable pub from_be : List ℕ → ℕ
from_be buf =
    get_or buf 0 0 * 2 ^ 24 + get_or buf 1 0 * 2 ^ 16 + get_or buf 2 0 * 2 ^ 8 + get_or buf 3 0

unfoldable pub read_u32 : M ℕ
read_u32 = do buf ← read_bytes 4; return (from_be buf)

unfoldable pub read_text : ℕ → M Text
read_text n =
    if n == 0 then return [] else if ltb 4096 n then fail (string_too_large n) else read_bytes n

unfoldable pub read_string : M Text
unfolding read_text
read_string = do n ← read_u32; read_text n

put : List ℕ → Fault → Conn → Result Error (Unit {0}) × Conn
put bytes healthy c = (ok tt, record c { sent = c.sent ++ bytes })
put bytes refused c = (err write_failed, c)
put bytes (short n) c =
    if leb (length bytes) n
    then (ok tt, record c { sent = c.sent ++ bytes })
    else (err (incomplete_write n (length bytes)), record c { sent = c.sent ++ take n bytes })

next_fault : List Fault → Fault × List Fault
next_fault [] = (healthy, [])
next_fault (f ∷ fs) = (f, fs)

unfoldable pub write : List ℕ → M (Unit {0})
unfolding put next_fault
write bytes c = let (f, fs) = next_fault c.faults in put bytes f (record c { faults = fs })

unfoldable pub write_u8 : ℕ → M (Unit {0})
write_u8 v = write (v ∷ [])

-- `binary.BigEndian.PutUint32`
unfoldable pub to_be : ℕ → List ℕ
to_be v = (v / 2 ^ 24 % 256) ∷ (v / 2 ^ 16 % 256) ∷ (v / 2 ^ 8 % 256) ∷ (v % 256) ∷ []

unfoldable pub write_u32 : ℕ → M (Unit {0})
write_u32 v = write (to_be v)

unfoldable pub write_string : Text → M (Unit {0})
write_string s = write s
