-- ===== src/Vnc/Proxy/Admits.antt =====
-- A browser that keeps to RFB 3.8 is admitted.
use conduit_bmc.Base.{
  ◌==◌, length, Result, ok, ℕ, ◌≤◌, ◌≡◌, refl, sym, ap, subst, ◌∙◌, ◌≢◌, not, List, [], ◌∷◌, ◌++◌,
  arith,
}
use conduit_bmc.Rfb.Stream.{Error, to_be, no_server_init}
use conduit_bmc.Rfb.Version.{ProtocolVersion, parse_protocol_version}
use conduit_bmc.Rfb.Security.{type_none}
use mathlib.Core.List.{append-nil, append_assoc}
use conduit_bmc.Vnc.Proxy.{
  Wire, Via, continue, version_38, handle_browser_handshake, check, browser_u8, offer_list,
  offer_security,
}

-- What is relied on of a connection: while it is healthy, bytes that arrive are read in order and the
-- others are left, and bytes are sent.
pub record IsSteady {S : Type 0} (w : Wire S) : Type 1 where
  pub arriving : S → List ℕ
  pub output : S → List ℕ
  pub IsHealthy : S → Type 0
  pub reads :
      (bs rest : List ℕ) (s : S)
      → IsHealthy s
      → arriving s ≡ bs ++ rest
      → (s' : S) × (w.read_bytes (length bs) s ≡ (ok bs, s'))
        × (arriving s' ≡ rest)
        × (output s' ≡ output s)
        × IsHealthy s'
  pub writes :
      (bs : List ℕ) (s : S)
      → IsHealthy s
      → (s' : S) × (w.write bs s ≡ (ok tt, s'))
        × (arriving s' ≡ arriving s)
        × (output s' ≡ output s ++ bs)
        × IsHealthy s'

module _ {S : Type 0} (w : Wire S) (l : IsSteady w) where
  open l use {arriving, output, IsHealthy}

  -- A step that takes bytes, leaves the rest, sends these, and stays healthy.
  pub record Does {A : Type 0} (m : Result Error A × S) (a : A) (s : S) (rest out : List ℕ)
      : Type 0 where
    pub after : S
    pub result : m ≡ (ok a, after)
    pub left : arriving after ≡ rest
    pub sent : output after ≡ output s ++ out
    pub healthy : IsHealthy after

  reads :
      (n : ℕ) (bs rest : List ℕ) (s : S)
      → length bs ≡ n
      → IsHealthy s
      → arriving s ≡ bs ++ rest
      → Does (w.read_bytes n s) bs s rest []
  reads n bs rest s e h a =
      let (after, r, d, o, k) = l.reads bs rest s h a in
      record {
        after = after;
        result = subst (λ k. w.read_bytes k s ≡ (ok bs, after)) e r;
        left = d;
        sent = o ∙ sym (append-nil (output s));
        healthy = k;
      }

  writes :
      (bs rest : List ℕ) (s : S)
      → IsHealthy s
      → arriving s ≡ rest
      → Does (w.write bs s) tt s rest bs
  writes bs rest s h a =
      let (after, r, d, o, k) = l.writes bs s h in
      record { after = after; result = r; left = d ∙ a; sent = o; healthy = k }

  returns :
      {A : Type 0} (a : A) (rest : List ℕ) (s : S)
      → IsHealthy s
      → arriving s ≡ rest
      → Does (ok a, s) a s rest []
  returns a rest s h d = record {
    after = s;
    result = refl;
    left = d;
    sent = sym (append-nil (output s));
    healthy = h;
  }

  by_equation :
      {A : Type 0} {p q : Result Error A × S} {a : A} {s : S} {rest out : List ℕ}
      → q ≡ p
      → Does p a s rest out
      → Does q a s rest out
  by_equation e d = record {
    after = d.after;
    result = e ∙ d.result;
    left = d.left;
    sent = d.sent;
    healthy = d.healthy;
  }

  bind :
      {A B : Type 0} {p : Result Error A × S} {a : A} {b : B} (s : S) {rest rest' : List ℕ}
      (out out' : List ℕ) (f : A → Via S B)
      → (d : Does p a s rest out) → Does (f a d.after) b d.after rest' out'
      → Does (continue p f) b s rest' (out ++ out')
  bind s out out' f d e = record {
    after = e.after;
    result = ap (λ q. continue q f) d.result ∙ e.result;
    left = e.left;
    sent = e.sent ∙ (ap (λ k. k ++ out') d.sent ∙ append_assoc (output s) out out');
    healthy = e.healthy;
  }

  reads_u8 :
      (b : ℕ) (rest : List ℕ) (s : S)
      → IsHealthy s
      → arriving s ≡ b ∷ rest
      → Does (browser_u8 w s) b s rest []
  unfolding browser_u8
  reads_u8 b rest s h a =
      let d = reads 1 (b ∷ []) rest s refl h a in
      bind s [] [] _ d (returns b rest d.after d.healthy d.left)

  offers :
      (rest : List ℕ) (s : S)
      → IsHealthy s
      → arriving s ≡ type_none ∷ rest
      → Does (offer_list w s) tt s rest ((1 ∷ []) ++ ((type_none ∷ []) ++ to_be 0))
  unfolding offer_list
  offers rest s h a =
      let d = writes (1 ∷ []) _ s h a in
      let e = writes (type_none ∷ []) _ d.after d.healthy d.left in
      let f = reads_u8 type_none rest e.after e.healthy e.left in
      let g = writes (to_be 0) rest f.after f.healthy f.left in
      bind s (1 ∷ []) _ _ d
        (bind d.after (type_none ∷ []) (to_be 0) _ e (bind e.after [] (to_be 0) _ f g))

  offers_37 :
      (v : ProtocolVersion) (rest : List ℕ) (s : S)
      → 7 ≤ v.minor
      → IsHealthy s
      → arriving s ≡ type_none ∷ rest
      → Does (offer_security w v s) tt s rest (1 ∷ type_none ∷ to_be 0)
  unfolding offer_security
  offers_37 v rest s m h a = by_equation (ground (arith, m)) (offers rest s h a)

  there_is :
      (server_init rest : List ℕ) (s : S)
      → server_init ≢ []
      → IsHealthy s
      → arriving s ≡ rest
      → Does (check (not (length server_init == 0)) no_server_init s) tt s rest []
  there_is [] rest s i h a = absurd (i refl)
  there_is (b ∷ bs) rest s i h a = by_equation (ground arith) (returns tt rest s h a)

  -- A browser that answers with a version of RFB 3.7 or later, selects no authentication and sends a
  -- ClientInit, whatever its flag, is admitted on a steady connection when there is a ServerInit: it is
  -- sent the version 3.8, the one type, a result of zero and that ServerInit, and nothing that it says
  -- afterwards is taken.
  pub handle_browser_handshake-admits :
      (bytes : List ℕ) (v : ProtocolVersion) (shared : ℕ) (server_init rest : List ℕ) (s : S)
      → IsHealthy s
      → length bytes ≡ 12
      → parse_protocol_version bytes ≡ ok v
      → 7 ≤ v.minor
      → server_init ≢ []
      → arriving s ≡ bytes ++ (type_none ∷ (shared ∷ rest))
      → Does
          (handle_browser_handshake w server_init s)
          tt
          s
          rest
          (version_38 ++ ((1 ∷ type_none ∷ to_be 0) ++ server_init))
  unfolding handle_browser_handshake
  handle_browser_handshake-admits bytes v shared server_init rest s h n p m i a =
      let d = writes version_38 _ s h a in
      let e = reads 12 bytes _ d.after n d.healthy d.left in
      let f : Does (parse_protocol_version bytes, e.after) v e.after (type_none ∷ (shared ∷ rest))
          [] =
        by_equation (ap (λ r. (r, e.after)) p) (returns v _ e.after e.healthy e.left) in
      let o = offers_37 v (shared ∷ rest) f.after m f.healthy f.left in
      let g = reads_u8 shared rest o.after o.healthy o.left in
      let c = there_is server_init rest g.after i g.healthy g.left in
      let k = writes server_init rest c.after c.healthy c.left in
      bind s version_38 _ _ d (
        bind d.after [] _ _ e (
          bind e.after [] _ _ f (
            bind f.after (1 ∷ type_none ∷ to_be 0) server_init _ o
              (bind o.after [] server_init _ g (bind g.after [] server_init _ c k)))))
