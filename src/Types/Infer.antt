-- ===== src/Types/Infer.antt =====
-- core/types/bmc.go. A slice beyond the end of a string panics, which is `none`.
pub mod Table
use conduit_bmc.Base.{ℕ, leb, if◌then◌else◌, Option, none, some, Text, str, same, length, take}

-- `s[:n]`
unfoldable pub slice_to : ℕ → Text → Option Text
slice_to n s = if leb n (length s) then some (take n s) else none

-- `s[:n] == t`, in a test with the two answers.
unfoldable pub test_slice {ℓ} : {A : Type ℓ} → Option Text → Text → Option A → Option A → Option A
test_slice none t positive negative = none
test_slice (some u) t positive negative = if same u t then positive else negative

-- `if len(e) >= n && (e[:n] == p || e[:m] == q) { return positive }; return negative`
unfoldable pub infer : ℕ → Text → ℕ → Text → Text → Text → Text → Option Text
infer n p m q positive negative e =
    if leb n (length e)
    then test_slice (slice_to n e) p (some positive)
        (test_slice (slice_to m e) q (some positive) (some negative))
    else some negative

unfoldable pub infer_bmc_type : Text → Option Text
infer_bmc_type = infer 7 (str "http://") 8 (str "https://") (str "redfish") (str "ipmi")

unfoldable pub infer_sol_type : Text → Option Text
infer_sol_type = infer 7 (str "http://") 8 (str "https://") (str "redfish_serial") (str "ipmi")

unfoldable pub infer_vnc_type : Text → Option Text
infer_vnc_type = infer 5 (str "ws://") 6 (str "wss://") (str "websocket") (str "native")
