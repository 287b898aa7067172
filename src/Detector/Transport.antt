-- ===== src/Detector/Transport.antt =====
-- roundtripper.go: WrapRoundTripper and its option.
use go_txnpure.Base.{nat_eq, Bytes, bytes_Eq, Option, none, some, List, [], ◌∷◌}
use go_txnpure.Detector.{Request, default_request_name, round_trip}
use go_txnpure.State.{Env, World, Detector}

-- An http.RoundTripper, which answers a request with an `R`.
abbrev pub RoundTripper : Type 0 → Type 0
RoundTripper R = Request → World → R × World

pub data RoundTripperOption : Type 0 where
  with_request_name : (Request → Bytes) → RoundTripperOption

-- A wrappedRoundTripper.
pub record Transport (R : Type 0) : Type 0 where
  pub det : Detector
  pub rt : RoundTripper R
  pub name : Request → Bytes

abbrev pub set_option : {R : Type 0} → RoundTripperOption → Transport R → Transport R
set_option (with_request_name f) t = record t { name = f }

abbrev pub set_options : {R : Type 0} → List RoundTripperOption → Transport R → Transport R
set_options [] t = t
set_options (o ∷ opts) t = set_options opts (set_option o t)

abbrev pub or_default : {R : Type 0} → RoundTripper R → Option (RoundTripper R) → RoundTripper R
or_default default none = default
or_default default (some rt) = rt

-- `default` is http.DefaultTransport.
unfoldable pub wrap_round_tripper :
    {R : Type 0}
    → RoundTripper R
    → Detector
    → Option (RoundTripper R)
    → List RoundTripperOption
    → Transport R
unfolding default_request_name
wrap_round_tripper default det rt opts =
    set_options opts (record { det = det; rt = or_default default rt; name = default_request_name })

unfoldable pub send_wrapped : {R : Type 0} → Transport R → Env → Request → World → R × World
unfolding round_trip
send_wrapped t env req w = round_trip t.det env t.name t.rt req w
