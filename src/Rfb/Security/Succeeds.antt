-- ===== src/Rfb/Security/Succeeds.antt =====
-- With a server that keeps to the protocol, and a connection that does not break, negotiation succeeds.
use conduit_bmc.Base.{
  take-length, drop-length, ℕ, ◌≡◌, ◌≢◌, ◌≤◌, ◌<◌, ◌==◌, refl, ap, ◌∙◌, Bool, true, false, List, [],
  ◌∷◌, ◌++◌, ok, arith, length, take, drop, pad_three-digits,
}
use conduit_bmc.Rfb.Stream.{Conn, read_u8, read_bytes, write_u8, write_string}
use conduit_bmc.Rfb.Stream.Chunks.{arriving}
use conduit_bmc.Rfb.Stream.Words.{read_bytes-enough, write-healthy}
use conduit_bmc.Rfb.Version.{ProtocolVersion, parse_protocol_version, to_wire_format, is_supported}
use conduit_bmc.Rfb.Version.Parse.{parse-to_wire}
use conduit_bmc.Rfb.Security.{
  type_invalid, scan_types, choose, negotiate_version, select_security_type, select_and_send,
  select_37, negotiate_security_type_37,
}

length-to_wire_format :
    (v : ProtocolVersion) → v.major < 1000 → v.minor < 1000 → length (to_wire_format v) ≡ 12
unfolding to_wire_format
length-to_wire_format v h k = rw (pad_three-digits v.major h, pad_three-digits v.minor k) refl

length-append : (xs ys : List ℕ) → length xs ≤ length (xs ++ ys)
length-append [] ys = omega arith
length-append (x ∷ xs) ys = omega (arith, length-append xs ys)

-- A read of as many bytes as lie before `rest`.
pub record Front (c : Conn) (bs rest : List ℕ) : Type 0 where
  pub after : Conn
  pub taken : read_bytes (length bs) c ≡ (ok bs, after)
  pub left : arriving after.incoming ≡ rest
  pub sent : after.sent ≡ c.sent
  pub healthy : after.faults ≡ c.faults

pub read_bytes-append :
    (bs rest : List ℕ) (c : Conn) → arriving c.incoming ≡ bs ++ rest → Front c bs rest
read_bytes-append bs rest c a =
    let (after, t, l, s, f) = read_bytes-enough (length bs) c (rw a (length-append bs rest)) in
    record {
      after = after;
      taken = t ∙ ap (λ l. (ok l, after)) (ap (take (length bs)) a ∙ take-length bs rest);
      left = l ∙ (ap (drop (length bs)) a ∙ drop-length bs rest);
      sent = s;
      healthy = f;
    }

negotiated :
    (v : ProtocolVersion) (c c₁ : Conn)
    → is_supported v ≡ true
    → read_bytes 12 c ≡ (ok (to_wire_format v), c₁)
    → parse_protocol_version (to_wire_format v) ≡ ok (record v { raw = to_wire_format v })
    → c₁.faults ≡ []
    → negotiate_version c
      ≡ (ok (record v { raw = to_wire_format v }), record c₁ { sent = c₁.sent ++ to_wire_format v })
unfolding negotiate_version write_string is_supported to_wire_format
negotiated v c c₁ s r p f = ground (arith, s, r, p, write-healthy (to_wire_format v) c₁ f)

-- The same with the write faults that are left.
pub negotiate_version-healthy :
    (v : ProtocolVersion) (rest : List ℕ) (c : Conn)
    → is_supported v ≡ true
    → arriving c.incoming ≡ to_wire_format v ++ rest
    → c.faults ≡ []
    → (after : Conn) × (negotiate_version c ≡ (ok (record v { raw = to_wire_format v }), after))
      × (arriving after.incoming ≡ rest)
      × (after.sent ≡ c.sent ++ to_wire_format v)
      × (after.faults ≡ [])
unfolding is_supported
negotiate_version-healthy v rest c s a f =
    let small : (v.major < 1000) × (v.minor < 1000) = ground (arith, s) in
    let r = read_bytes-append (to_wire_format v) rest c a in
    let n = length-to_wire_format v small.0 small.1 in
    (
      record r.after { sent = r.after.sent ++ to_wire_format v },
      negotiated v c r.after s (rw n at r.taken) (parse-to_wire v small.0 small.1) (r.healthy ∙ f),
      r.left,
      ap (λ l. l ++ to_wire_format v) r.sent,
      r.healthy ∙ f,
    )

-- A server that opens with a supported version is answered with the same version, which is returned
-- and whose bytes alone are taken, on a connection without write faults.
pub negotiate_version-supported :
    (v : ProtocolVersion) (rest : List ℕ) (c : Conn)
    → is_supported v ≡ true
    → arriving c.incoming ≡ to_wire_format v ++ rest
    → c.faults ≡ []
    → (after : Conn) × (negotiate_version c ≡ (ok (record v { raw = to_wire_format v }), after))
      × (arriving after.incoming ≡ rest)
      × (after.sent ≡ c.sent ++ to_wire_format v)
negotiate_version-supported v rest c s a f =
    let (after, e, l, w, h) = negotiate_version-healthy v rest c s a f in (after, e, l, w)

pub read_u8-append :
    (b : ℕ) (rest : List ℕ) (c : Conn)
    → arriving c.incoming ≡ b ∷ rest
    → (after : Conn) × (read_u8 c ≡ (ok b, after))
      × (arriving after.incoming ≡ rest)
      × (after.sent ≡ c.sent)
      × (after.faults ≡ c.faults)
unfolding read_u8
read_u8-append b rest c a =
    let r = read_bytes-append (b ∷ []) rest c a in
    (r.after, ground (arith, r.taken), r.left, r.sent, r.healthy)

selects :
    (types : List ℕ) (prefer : Bool) (c : Conn)
    → select_security_type types prefer ≢ type_invalid
    → c.faults ≡ []
    → select_and_send types prefer c ≡ (
      ok (select_security_type types prefer),
      record c { sent = c.sent ++ (select_security_type types prefer ∷ []) },
    )
unfolding select_and_send write_u8
selects types prefer c s f =
    ground (arith, s, write-healthy (select_security_type types prefer ∷ []) c f)

not_empty :
    (types : List ℕ) (prefer : Bool)
    → select_security_type types prefer ≢ type_invalid
    → (length types == 0) ≡ false
unfolding select_security_type scan_types choose
not_empty [] true h = absurd (h refl)
not_empty [] false h = absurd (h refl)
not_empty (t ∷ ts) prefer h = ground arith

-- The same with the write faults that are left.
pub negotiate_37-healthy :
    (types rest : List ℕ) (prefer : Bool) (c : Conn)
    → select_security_type types prefer ≢ type_invalid
    → arriving c.incoming ≡ length types ∷ (types ++ rest)
    → c.faults ≡ []
    → (after : Conn) × (negotiate_security_type_37 prefer c
        ≡ (ok (select_security_type types prefer), after))
      × (arriving after.incoming ≡ rest)
      × (after.sent ≡ c.sent ++ (select_security_type types prefer ∷ []))
      × (after.faults ≡ [])
unfolding negotiate_security_type_37 select_37
negotiate_37-healthy types rest prefer c s a f =
    let (c₁, e, b, t, g) = read_u8-append (length types) (types ++ rest) c a in
    let r = read_bytes-append types rest c₁ b in
    let healthy = r.healthy ∙ (g ∙ f) in
    (
      record r.after { sent = r.after.sent ++ (select_security_type types prefer ∷ []) },
      ground (arith, e, not_empty types prefer s, r.taken, selects types prefer r.after s healthy),
      r.left,
      ap (λ l. l ++ (select_security_type types prefer ∷ [])) (r.sent ∙ t),
      healthy,
    )

-- A server that counts and lists security types, of which one is selected, is answered with the
-- selected one, which is returned, on a connection without write faults.
pub negotiate_37-selects :
    (types rest : List ℕ) (prefer : Bool) (c : Conn)
    → select_security_type types prefer ≢ type_invalid
    → arriving c.incoming ≡ length types ∷ (types ++ rest)
    → c.faults ≡ []
    → (after : Conn) × (negotiate_security_type_37 prefer c
        ≡ (ok (select_security_type types prefer), after))
      × (arriving after.incoming ≡ rest)
      × (after.sent ≡ c.sent ++ (select_security_type types prefer ∷ []))
negotiate_37-selects types rest prefer c s a f =
    let (after, e, l, w, h) = negotiate_37-healthy types rest prefer c s a f in (after, e, l, w)
