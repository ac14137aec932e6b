-- ===== src/Types/Identity/Sanitized.antt =====
-- What sanitizing keeps and what it confuses.
use conduit_bmc.Base.{
  append_cancel, ◌==◌, if◌then◌else◌, Text, str, ℕ, ◌≡◌, refl, ◌↔◌, ◌||◌, [], ◌∷◌, ◌++◌, map, arith,
}
use conduit_bmc.Types.Identity.{
  replace_all, sanitize_bmc_endpoint_for_id, generate_server_id_from_bmc_endpoint,
}

-- What becomes of one byte.
abbrev pub sanitized : ℕ → ℕ
sanitized c = if c == b':' || c == b'.' then b'-' else c

sanitize-map : (e : Text) → sanitize_bmc_endpoint_for_id e ≡ map sanitized e
unfolding sanitize_bmc_endpoint_for_id replace_all
sanitize-map [] = refl
sanitize-map (c ∷ e) = ground (arith, sanitize-map e)

replaced-map : (e : Text) → replace_all b'.' b'-' (replace_all b':' b'-' e) ≡ map sanitized e
unfolding sanitize_bmc_endpoint_for_id
replaced-map e = sanitize-map e

-- Two addresses of one datacenter get the same server id exactly when they differ at most in their
-- colons, dots and hyphens.
pub generate_server_id_iff :
    (datacenter_id e f : Text)
    → (generate_server_id_from_bmc_endpoint datacenter_id e
        ≡ generate_server_id_from_bmc_endpoint datacenter_id f)
      ↔ (map sanitized e ≡ map sanitized f)
unfolding generate_server_id_from_bmc_endpoint
generate_server_id_iff dc e f = (
  λ h. cc (
      append_cancel (str "bmc-" ++ dc) (b'-' ∷ map sanitized e) (b'-' ∷ map sanitized f)
        (rw (replaced-map e, replaced-map f) at h)),
  λ h. rw (replaced-map e, replaced-map f, h) refl,
)
