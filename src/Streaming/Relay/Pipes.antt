-- ===== src/Streaming/Relay/Pipes.antt =====
-- What a stream will still deliver.
use conduit_bmc.Base.{
  Text, ℕ, ◌≡◌, refl, sym, ap, ◌⊎◌, inl, inr, Bool, true, false, ◌||◌, List, [], ◌∷◌, ◌++◌,
}
use conduit_bmc.Streaming.{Chunk, Verdict, forward, skip, stop, data_chunk, close_chunk}
use conduit_bmc.Streaming.Relay.{Source, Sink}
use mathlib.Core.List.{append-nil, append_assoc}

-- The bytes that a loop which starts with this verdict writes, when the rest comes to `bytes`.
abbrev pub then_bytes : Verdict → List ℕ → List ℕ
then_bytes (forward b) bytes = b ++ bytes
then_bytes skip bytes = bytes
then_bytes stop bytes = []

abbrev pub then_ends : Verdict → Bool → Bool
then_ends (forward b) rest = rest
then_ends skip rest = rest
then_ends stop rest = true

module _ (sink : Sink) where
  -- The bytes before the first chunk at which the loop ends, and whether there is such a chunk.
  abbrev pub payload : List Chunk → List ℕ
  payload [] = []
  payload (c ∷ cs) = then_bytes (sink.verdict c) (payload cs)

  abbrev pub ends : List Chunk → Bool
  ends [] = false
  ends (c ∷ cs) = then_ends (sink.verdict c) (ends cs)

  then_bytes-append :
      (v : Verdict) (xs ys zs : List ℕ) (b : Bool)
      → (b ≡ false → zs ≡ xs ++ ys)
      → then_ends v b ≡ false
      → then_bytes v zs ≡ then_bytes v xs ++ ys
  then_bytes-append (forward d) xs ys zs b h e = rw (h e) (sym (append_assoc d xs ys))
  then_bytes-append skip xs ys zs b h e = h e
  then_bytes-append stop xs ys zs b h e = cc e

  pub payload-append :
      (s t : List Chunk) → ends s ≡ false → payload (s ++ t) ≡ payload s ++ payload t
  payload-append [] t e = refl
  payload-append (c ∷ cs) t e =
      then_bytes-append (sink.verdict c) (payload cs) (payload t) (payload (cs ++ t)) (ends cs)
        (payload-append cs t) e

  then_bytes-ended :
      (v : Verdict) (xs ys : List ℕ) (b : Bool)
      → (b ≡ true → ys ≡ xs)
      → then_ends v b ≡ true
      → then_bytes v ys ≡ then_bytes v xs
  then_bytes-ended (forward d) xs ys b h e = ap (λ l. d ++ l) (h e)
  then_bytes-ended skip xs ys b h e = h e
  then_bytes-ended stop xs ys b h e = refl

  pub payload-ended : (s t : List Chunk) → ends s ≡ true → payload (s ++ t) ≡ payload s
  payload-ended [] t e = cc e
  payload-ended (c ∷ cs) t e =
      then_bytes-ended (sink.verdict c) (payload cs) (payload (cs ++ t)) (ends cs)
        (payload-ended cs t) e

  then_ends-append :
      (v : Verdict) (a b c : Bool) → c ≡ (a || b) → then_ends v c ≡ (then_ends v a || b)
  then_ends-append (forward d) a b c h = h
  then_ends-append skip a b c h = h
  then_ends-append stop a b c h = refl

  pub ends-append : (s t : List Chunk) → ends (s ++ t) ≡ (ends s || ends t)
  ends-append [] t = refl
  ends-append (c ∷ cs) t =
      then_ends-append (sink.verdict c) (ends cs) (ends t) (ends (cs ++ t)) (ends-append cs t)

  then_data :
      (v : Verdict) (b : List ℕ)
      → (v ≡ forward b) ⊎ ((v ≡ skip) × (b ≡ []))
      → (then_bytes v [] ≡ b) × (then_ends v false ≡ false)
  then_data v b (inl e) = rw e (append-nil b, refl)
  then_data v b (inr (e, z)) = rw (e, z) (refl, refl)

  pub payload-data_chunk :
      (session_id server_id : Text) (b : List ℕ)
      → (payload (data_chunk session_id server_id b ∷ []) ≡ b)
        × (ends (data_chunk session_id server_id b ∷ []) ≡ false)
  payload-data_chunk session_id server_id b =
      then_data (sink.verdict (data_chunk session_id server_id b)) b
        (sink.on_data session_id server_id b)

  pub payload-close_chunk :
      (session_id server_id : Text)
      → (payload (close_chunk session_id server_id ∷ []) ≡ [])
        × (ends (close_chunk session_id server_id ∷ []) ≡ true)
  payload-close_chunk session_id server_id = rw (sink.on_close session_id server_id) (refl, refl)

-- The bytes of the items that are not yet read.
abbrev pub said_in : {I : Type 0} → Source I → List I → List ℕ
said_in source [] = []
said_in source (i ∷ is) = source.bytes_of i ++ said_in source is

pub said_in-append :
    {I : Type 0} (source : Source I) (is js : List I)
    → said_in source (is ++ js) ≡ said_in source is ++ said_in source js
said_in-append source [] js = refl
said_in-append source (i ∷ is) js =
    rw (said_in-append source is js)
      (sym (append_assoc (source.bytes_of i) (said_in source is) (said_in source js)))
