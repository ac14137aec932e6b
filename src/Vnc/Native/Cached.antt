-- ===== src/Vnc/Native/Cached.antt =====
-- What the agent caches is what the BMC's server has sent.
use conduit_bmc.Base.{
  ◌==◌, if◌then◌else◌, length, Text, is_empty, Result, ok, ℕ, ◌^◌, ◌<◌, ◌≡◌, refl, sym, ap, subst,
  ◌∙◌, ◌≢◌, true, false, not, some, List, [], ◌∷◌, ◌++◌, arith,
}
use conduit_bmc.Rfb.Stream.{
  Conn, M, Error, continue, return, lift, read_bytes, read_u32, write, write_u8, to_be,
}
use conduit_bmc.Rfb.Stream.Chunks.{arriving}
use conduit_bmc.Rfb.Stream.Words.{write-healthy, read_u32-to_be}
use conduit_bmc.Rfb.Version.{ProtocolVersion, to_wire_format, is_supported}
use conduit_bmc.Rfb.Security.{
  type_none, type_vnc_auth, type_invalid, negotiate_version, negotiate_security_type,
  read_security_result, send_client_init, select_security_type,
}
use conduit_bmc.Rfb.Security.Succeeds.{
  negotiate_version-healthy, negotiate_37-healthy, read_bytes-append,
}
use conduit_bmc.Rfb.VncAuth.{Des, encrypt_vnc_challenge}
use mathlib.Core.List.{append-nil, append_assoc}
use conduit_bmc.Vnc.Native.{
  perform_vnc_auth, with_password, authenticate_as, read_server_init, authenticate,
}

-- A step that takes these bytes, leaves the rest, sends these, and meets no fault.
pub record Does {A : Type 0} (m : Result Error A × Conn) (a : A) (c : Conn) (rest out : List ℕ)
    : Type 0 where
  pub after : Conn
  pub result : m ≡ (ok a, after)
  pub left : arriving after.incoming ≡ rest
  pub sent : after.sent ≡ c.sent ++ out
  pub healthy : after.faults ≡ []

reads_bytes :
    (n : ℕ) (bs rest : List ℕ) (c : Conn)
    → length bs ≡ n
    → arriving c.incoming ≡ bs ++ rest
    → c.faults ≡ []
    → Does (read_bytes n c) bs c rest []
reads_bytes n bs rest c e a f =
    let r = read_bytes-append bs rest c a in
    record {
      after = r.after;
      result = subst (λ k. read_bytes k c ≡ (ok bs, r.after)) e r.taken;
      left = r.left;
      sent = r.sent ∙ sym (append-nil c.sent);
      healthy = r.healthy ∙ f;
    }

reads_u32 :
    (u : ℕ) (rest : List ℕ) (c : Conn)
    → u < 2 ^ 32
    → arriving c.incoming ≡ to_be u ++ rest
    → c.faults ≡ []
    → Does (read_u32 c) u c rest []
reads_u32 u rest c h a f =
    let (after, e, l, s, g) = read_u32-to_be u rest c h a in
    record {
      after = after;
      result = e;
      left = l;
      sent = s ∙ sym (append-nil c.sent);
      healthy = g ∙ f;
    }

writes :
    (bs rest : List ℕ) (c : Conn)
    → arriving c.incoming ≡ rest
    → c.faults ≡ []
    → Does (write bs c) tt c rest bs
writes bs rest c a f = record {
  after = record c { sent = c.sent ++ bs };
  result = write-healthy bs c f;
  left = a;
  sent = refl;
  healthy = f;
}

returns :
    {A : Type 0} (a : A) (rest : List ℕ) (c : Conn)
    → arriving c.incoming ≡ rest
    → c.faults ≡ []
    → Does (ok a, c) a c rest []
returns a rest c l f = record {
  after = c;
  result = refl;
  left = l;
  sent = sym (append-nil c.sent);
  healthy = f;
}

-- One step after another.
bind :
    {A B : Type 0} {p : Result Error A × Conn} {a : A} {b : B} (c : Conn) {rest rest' : List ℕ}
    (out out' : List ℕ) (f : A → M B)
    → (d : Does p a c rest out) → Does (f a d.after) b d.after rest' out'
    → Does (continue p f) b c rest' (out ++ out')
bind c out out' f d e = record {
  after = e.after;
  result = ap (λ q. continue q f) d.result ∙ e.result;
  left = e.left;
  sent = e.sent ∙ (ap (λ l. l ++ out') d.sent ∙ append_assoc c.sent out out');
  healthy = e.healthy;
}

by_equation :
    {A : Type 0} {p q : Result Error A × Conn} {a : A} {c : Conn} {rest out : List ℕ}
    → q ≡ p
    → Does p a c rest out
    → Does q a c rest out
by_equation e d = record {
  after = d.after;
  result = e ∙ d.result;
  left = d.left;
  sent = d.sent;
  healthy = d.healthy;
}

trimmed :
    {A : Type 0} {p : Result Error A × Conn} {a : A} (c : Conn) {rest : List ℕ} (out : List ℕ)
    → Does p a c rest (out ++ [])
    → Does p a c rest out
trimmed c out d = record {
  after = d.after;
  result = d.result;
  left = d.left;
  sent = d.sent ∙ ap (λ l. c.sent ++ l) (append-nil out);
  healthy = d.healthy;
}

-- A server's result of zero: the client is admitted.
admitted :
    (v : ProtocolVersion) (rest : List ℕ) (c : Conn)
    → arriving c.incoming ≡ to_be 0 ++ rest
    → c.faults ≡ []
    → Does (read_security_result (some v) c) tt c rest []
unfolding read_security_result
admitted v rest c a f =
    let d = reads_u32 0 rest c (omega arith) a f in
    bind c [] [] _ d (returns tt rest d.after d.left d.healthy)

module _ (des : Des) (password : Text) where
  -- What the server says between the choice of a security type and its result, and the answer.
  pub data Dialogue (security : ℕ) (asked answered : List ℕ) : Type 0 where
    open_access :
        security ≡ type_none → asked ≡ [] → answered ≡ [] → Dialogue security asked answered
    challenged :
        security ≡ type_vnc_auth
        → is_empty password ≡ false
        → length asked ≡ 16
        → encrypt_vnc_challenge des asked password ≡ ok answered
        → Dialogue security asked answered

  answers :
      (asked answered rest : List ℕ) (c : Conn)
      → length asked ≡ 16
      → encrypt_vnc_challenge des asked password ≡ ok answered
      → arriving c.incoming ≡ asked ++ rest
      → c.faults ≡ []
      → Does (perform_vnc_auth des password c) tt c rest answered
  unfolding perform_vnc_auth
  answers asked answered rest c n e a f =
      let d = reads_bytes 16 asked rest c n a f in
      let l : Does (lift (encrypt_vnc_challenge des asked password) d.after) answered d.after rest
          [] =
        rw e (returns answered rest d.after d.left d.healthy) in
      bind c [] answered _ d
        (bind d.after [] answered _ l (writes answered rest l.after l.left l.healthy))

  authenticates :
      (v : ProtocolVersion) (security : ℕ) (asked answered rest : List ℕ) (c : Conn)
      → v.minor ≡ 8
      → Dialogue security asked answered
      → arriving c.incoming ≡ asked ++ (to_be 0 ++ rest)
      → c.faults ≡ []
      → Does (authenticate_as des v password security c) tt c rest answered
  unfolding authenticate_as with_password
  authenticates v security asked answered rest c m (open_access s x y) a f =
      rw y (by_equation (ground (arith, s, m)) (admitted v rest c (rw x at a) f))
  authenticates v security asked answered rest c m (challenged s x y z) a f =
      rw (s, x)
        (let d = answers asked answered (to_be 0 ++ rest) c y z a f in
          trimmed c answered (bind c answered [] _ d (admitted v rest d.after d.left d.healthy)))

reads_name :
    (name rest : List ℕ) (c : Conn)
    → arriving c.incoming ≡ name ++ rest
    → c.faults ≡ []
    → Does ((if length name == 0 then return [] else read_bytes (length name)) c) name c rest []
reads_name [] rest c a f = returns [] rest c a f
reads_name (b ∷ name) rest c a f =
    by_equation (ground arith) (reads_bytes (length (b ∷ name)) (b ∷ name) rest c refl a f)

-- ServerInit: the size of the screen and the pixel format, and a name with its length.
abbrev pub server_init : List ℕ → List ℕ → List ℕ
server_init header name = header ++ (to_be (length name) ++ name)

reads_server_init :
    (header name rest : List ℕ) (c : Conn)
    → length header ≡ 20
    → length name < 2 ^ 32
    → arriving c.incoming ≡ header ++ (to_be (length name) ++ (name ++ rest))
    → c.faults ≡ []
    → Does (read_server_init c) (server_init header name) c rest []
unfolding read_server_init
reads_server_init header name rest c h n a f =
    let d = reads_bytes 20 header (to_be (length name) ++ (name ++ rest)) c h a f in
    let e = reads_u32 (length name) (name ++ rest) d.after n d.left d.healthy in
    let g = reads_name name rest e.after e.left e.healthy in
    bind c [] [] _ d (
      bind d.after [] [] _ e
        (bind e.after [] [] _ g (returns (server_init header name) rest g.after g.left g.healthy)))

module _ (des : Des) (password : Text) where
  chooses :
      (v : ProtocolVersion) (types rest : List ℕ) (c : Conn)
      → v.minor ≡ 8
      → select_security_type types (not (is_empty password)) ≢ type_invalid
      → arriving c.incoming ≡ length types ∷ (types ++ rest)
      → c.faults ≡ []
      → Does
          (negotiate_security_type (some v) (not (is_empty password)) c)
          (select_security_type types (not (is_empty password)))
          c
          rest
          (select_security_type types (not (is_empty password)) ∷ [])
  unfolding negotiate_security_type
  chooses v types rest c m s a f =
      let (after, e, l, w, h) = negotiate_37-healthy types rest (not (is_empty password)) c s a f in
      record { after = after; result = rw m e; left = l; sent = w; healthy = h }

  -- A server of RFB 3.8 that lists security types of which the agent selects one, admits the agent by
  -- it (without a password, or by a challenge that is answered), and sends a ServerInit: on a connection
  -- without write faults the agent's `Authenticate` succeeds, caches that ServerInit byte for byte, takes
  -- nothing of what follows it, and has sent the version, the selected type, the answer and a shared
  -- ClientInit.
  pub authenticate-server_init :
      (v : ProtocolVersion) (types asked answered header name rest : List ℕ) (c : Conn)
      → is_supported v ≡ true
      → v.minor ≡ 8
      → select_security_type types (not (is_empty password)) ≢ type_invalid
      → Dialogue des password (select_security_type types (not (is_empty password))) asked answered
      → length header ≡ 20
      → length name < 2 ^ 32
      → arriving c.incoming
        ≡ to_wire_format v
          ++ (length types
              ∷ (types
                  ++ (asked ++ (to_be 0 ++ (header ++ (to_be (length name) ++ (name ++ rest)))))))
      → c.faults ≡ []
      → Does (authenticate des password c) (server_init header name) c rest (
          to_wire_format v
          ++ ((select_security_type types (not (is_empty password)) ∷ [])
              ++ (answered ++ (1 ∷ []))))
  unfolding authenticate send_client_init write_u8
  authenticate-server_init v types asked answered header name rest c s m t q h n a f =
      let (after, e, l, w, g) = negotiate_version-healthy v _ c s a f in
      let agreed : Does (negotiate_version c) (record v { raw = to_wire_format v }) c _
          (to_wire_format v) =
        record { after = after; result = e; left = l; sent = w; healthy = g } in
      let v' = record v { raw = to_wire_format v } in
      let chosen = chooses v' types _ after m t l g in
      let let_in =
        authenticates des password v' _ asked answered _ chosen.after m q chosen.left
          chosen.healthy in
      let init = writes (1 ∷ []) _ let_in.after let_in.left let_in.healthy in
      let got = reads_server_init header name rest init.after h n init.left init.healthy in
      bind c (to_wire_format v) _ _ agreed (
        bind after (select_security_type types (not (is_empty password)) ∷ []) _ _ chosen (
          bind chosen.after answered (1 ∷ []) _ let_in
            (trimmed let_in.after (1 ∷ []) (bind let_in.after (1 ∷ []) [] _ init got))))
