-- ===== src/Rfb/Security/Negotiated.antt =====
-- What a successful negotiation has read, chosen and sent.
use conduit_bmc.Base.{
  inl, inr, ℕ, ◌^◌, ◌%◌, ◌<◌, ◌≤◌, ◌≡◌, ◌≢◌, refl, ap, ◌∙◌, ◌==◌, Bool, true, false, not, List, [],
  ◌∷◌, ◌++◌, ok, Text, take, drop, length, get_or, arith, Bool-cases,
}
use conduit_bmc.Rfb.Stream.{
  Conn, Error, continue, check, lift, read_bytes, read_u8, read_u32, unsupported_version,
  connection_failed, none_offered, write, write_u8, write_string, from_be, to_be,
}
use conduit_bmc.Rfb.Stream.Chunks.{arriving}
use conduit_bmc.Rfb.Stream.Words.{
  Took, read_bytes-Took, continue-eq-ok, read_u32-next, read_u8-next, read_u32-to_be, write-sent,
}
use conduit_bmc.Rfb.Version.{ProtocolVersion, parse_protocol_version, to_wire_format, is_supported}
use conduit_bmc.Rfb.Version.Parse.{Printed, parse-Printed}
use conduit_bmc.Rfb.Security.{
  type_supported, type_invalid, negotiate_version, select_security_type, select_and_send, select_37,
  accept_33, fail_with_reason, negotiate_security_type_33, negotiate_security_type_37,
}
use conduit_bmc.Rfb.Security.Select.{offers, select_security_type_table}

-- What was read and sent, and which version it was.
pub record Agreed (c : Conn) (v : ProtocolVersion) (c' : Conn) : Type 0 where
  pub enough : 12 ≤ length (arriving c.incoming)
  pub rest : arriving c'.incoming ≡ drop 12 (arriving c.incoming)
  pub echoed : c'.sent ≡ c.sent ++ take 12 (arriving c.incoming)
  pub supported : is_supported v ≡ true
  pub printed : to_wire_format v ≡ take 12 (arriving c.incoming)

agreed :
    (c c₁ c₂ c₃ c₄ c' : Conn) (bytes : List ℕ) (v₁ v : ProtocolVersion)
    → Took 12 c bytes c₁
    → Printed bytes v₁
    → c₁ ≡ c₂
    → (is_supported v₁ ≡ true) × (c₃ ≡ c₂)
    → (c₄.sent ≡ c₃.sent ++ to_wire_format v₁) × (c₄.incoming ≡ c₃.incoming)
    → v₁ ≡ v
    → c₄ ≡ c'
    → Agreed c v c'
agreed c c₁ c₂ c₃ c₄ c' bytes v₁ v t p e s w f g = ground arith

check-ok :
    (b : Bool) (e : Error) (c c' : Conn) {u : Unit {0}}
    → check b e c ≡ (ok u, c')
    → (b ≡ true) × (c' ≡ c)
check-ok true e c c' h = (refl, cc h)
check-ok false e c c' h = cc h

-- `NegotiateVersion` succeeds only when twelve bytes arrive that print a supported version; it
-- returns that version, sends the same bytes back, and leaves what follows them.
pub negotiate_version-Agreed :
    (c : Conn) (v : ProtocolVersion) (c' : Conn) → negotiate_version c ≡ (ok v, c') → Agreed c v c'
unfolding negotiate_version write_string
negotiate_version-Agreed c v c' h =
    let (bytes, c₁, r, h₁) = continue-eq-ok (read_bytes 12 c) _ h in
    let (v₁, c₂, p, h₂) = continue-eq-ok (lift (parse_protocol_version bytes) c₁) _ h₁ in
    let (u, c₃, q, h₃) =
      continue-eq-ok (check (is_supported v₁) (unsupported_version v₁.major v₁.minor) c₂) _ h₂ in
    let (u', c₄, w, h₄) = continue-eq-ok (write (to_wire_format v₁) c₃) _ h₃ in
    agreed c c₁ c₂ c₃ c₄ c' bytes v₁ v (read_bytes-Took 12 c bytes c₁ r)
      (parse-Printed bytes v₁ (cc p)) (cc p) (check-ok (is_supported v₁) _ c₂ c₃ q)
      (write-sent (to_wire_format v₁) c₃ c₄ w) (cc h₄) (cc h₄)

fail_with_reason-ne-ok {ℓ} :
    {A : Type ℓ} (f : Text → Error) (c : Conn) {a : A} {c' : Conn}
    → fail_with_reason f c ≢ (ok a, c')
unfolding fail_with_reason
fail_with_reason-ne-ok f c h = ground arith

accept_33-ok :
    (u : ℕ) (c₁ : Conn) (s : ℕ) (c' : Conn)
    → accept_33 u c₁ ≡ (ok s, c')
    → (s ≡ u % 256) × (u ≢ 0) × (type_supported s ≡ true) × (c'.sent ≡ c₁.sent)
unfolding accept_33
accept_33-ok u c₁ s c' h = elim (Bool-cases (u == 0)) [
  | inl z ↦ absurd (fail_with_reason-ne-ok connection_failed c₁ (rw z at h))
  | inr z ↦ ground (arith, rw z at h)
]

-- A successful `negotiateSecurityType33` returns the low byte of a nonzero word of four bytes, and
-- that byte is a supported type.
pub negotiate_33-ok :
    (c : Conn) (s : ℕ) (c' : Conn)
    → negotiate_security_type_33 c ≡ (ok s, c')
    → (s ≡ from_be (arriving c.incoming) % 256)
      × (from_be (arriving c.incoming) ≢ 0)
      × (type_supported s ≡ true)
      × (c'.sent ≡ c.sent)
unfolding negotiate_security_type_33
negotiate_33-ok c s c' h =
    let (u, c₁, r, e) = continue-eq-ok (read_u32 c) _ h in
    let (v, _, k) = read_u32-next c u c₁ r in ground (arith, accept_33-ok u c₁ s c' e, v, k)

-- The word of an RFB 3.3 server is not tested to be a byte: every word whose low byte is a supported
-- type is accepted as that type.
pub negotiate_33-low_byte :
    (u : ℕ) (rest : List ℕ) (c : Conn)
    → u < 2 ^ 32
    → u ≢ 0
    → type_supported (u % 256) ≡ true
    → arriving c.incoming ≡ to_be u ++ rest
    → (c' : Conn) × (negotiate_security_type_33 c ≡ (ok (u % 256), c'))
unfolding negotiate_security_type_33
negotiate_33-low_byte u rest c small nonzero supported a =
    let (c', e, _, _, _) = read_u32-to_be u rest c small a in (c', ground (arith, e))

-- The types that were read, the one chosen of them, and what was sent.
pub record Chosen (prefer : Bool) (c : Conn) (s : ℕ) (c' : Conn) : Type 0 where
  pub types : List ℕ
  pub listed : types ≡ take (get_or (arriving c.incoming) 0 0) (drop 1 (arriving c.incoming))
  pub selected : s ≡ select_security_type types prefer
  pub offered : offers types s ≡ true
  pub supported : type_supported s ≡ true
  pub told : c'.sent ≡ c.sent ++ (s ∷ [])
  pub rest :
      arriving c'.incoming ≡ drop (get_or (arriving c.incoming) 0 0) (drop 1 (arriving c.incoming))

selected-offered :
    (types : List ℕ) (prefer : Bool)
    → select_security_type types prefer ≢ type_invalid
    → (offers types (select_security_type types prefer) ≡ true)
      × (type_supported (select_security_type types prefer) ≡ true)
unfolding type_supported
selected-offered types prefer h = ground (arith, select_security_type_table types prefer)

select_and_send-ok :
    (types : List ℕ) (prefer : Bool) (c : Conn) (s : ℕ) (c' : Conn)
    → select_and_send types prefer c ≡ (ok s, c')
    → (s ≡ select_security_type types prefer)
      × (select_security_type types prefer ≢ type_invalid)
      × (c'.sent ≡ c.sent ++ (s ∷ []))
      × (c'.incoming ≡ c.incoming)
unfolding select_and_send write_u8
select_and_send-ok types prefer c s c' h =
    let (_, c₁, q, h₁) =
      continue-eq-ok
        (check (not (select_security_type types prefer == type_invalid)) (none_offered types) c) _
        h in
    let (b, k) = check-ok _ _ c c₁ q in
    let (_, c₂, w, h₂) = continue-eq-ok (write (select_security_type types prefer ∷ []) c₁) _ h₁ in
    ground (arith, b, k, h₂, write-sent (select_security_type types prefer ∷ []) c₁ c₂ w)

chosen :
    (prefer : Bool) (c c₁ c₂ : Conn) (s : ℕ) (c' : Conn) (n : ℕ) (types : List ℕ)
    → n ≡ get_or (arriving c.incoming) 0 0
    → arriving c₁.incoming ≡ drop 1 (arriving c.incoming)
    → c₁.sent ≡ c.sent
    → Took n c₁ types c₂
    → (s ≡ select_security_type types prefer)
      × (select_security_type types prefer ≢ type_invalid)
      × (c'.sent ≡ c₂.sent ++ (s ∷ []))
      × (c'.incoming ≡ c₂.incoming)
    → Chosen prefer c s c'
chosen prefer c c₁ c₂ s c' n types v a k t (e, ne, w, i) =
    let (o, p) = selected-offered types prefer ne in
    record {
      types = types;
      listed = t.value ∙ rw (a, v) refl;
      selected = e;
      offered = rw e o;
      supported = rw e p;
      told = w ∙ rw (t.sent, k) refl;
      rest = ap arriving i ∙ t.rest ∙ rw (a, v) refl;
    }

-- `negotiateSecurityType37` succeeds only with a supported type that the server has listed and the
-- preference selects; it has read the count and the list, and has sent that type alone.
pub negotiate_37-Chosen :
    (prefer : Bool) (c : Conn) (s : ℕ) (c' : Conn)
    → negotiate_security_type_37 prefer c ≡ (ok s, c')
    → Chosen prefer c s c'
unfolding negotiate_security_type_37 select_37
negotiate_37-Chosen prefer c s c' h =
    let (n, c₁, r, h₁) = continue-eq-ok (read_u8 c) _ h in
    let (v, a, k) = read_u8-next c n c₁ r in
    elim (Bool-cases (n == 0)) [
      | inl z ↦ absurd (fail_with_reason-ne-ok connection_failed c₁ (rw z at h₁))
      | inr z ↦
          let h₁' : continue (read_bytes n c₁) (λ types. select_and_send types prefer)
              ≡ (ok s, c') =
            rw z at h₁ in
          let (types, c₂, t, h₂) = continue-eq-ok (read_bytes n c₁) _ h₁' in
          chosen prefer c c₁ c₂ s c' n types v a k (read_bytes-Took n c₁ types c₂ t)
            (select_and_send-ok types prefer c₂ s c' h₂)
    ]
