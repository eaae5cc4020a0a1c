-- ===== src/Ca/Tests.antt =====
-- One token of internal/platform/ca, and the theorem at its first use.
use tidefly_plane.Prelude.{false, none, some, [], ◌∷◌, ◌≡◌, refl, ok}
use tidefly_plane.Ca.Registration.{RegistrationToken, token_valid, create_with, consume, consumed}
use tidefly_plane.Ca.Once.{UsedUp, consume-UsedUp}

abbrev offer : RegistrationToken
offer = record {
  id = 1;
  token = "tfy_reg_ab";
  expires_at = token_valid;
  used = false;
  used_at = none;
  label = "rack";
  worker_id = none;
  created_by = "1";
}

create_with_test : create_with 0 "1" "rack" 1 (some "ab") [] ≡ (ok offer, offer ∷ [])
unfolding create_with
create_with_test = refl

consume_test : (consume 5 "tfy_reg_ab" "w1" (offer ∷ [])).0 ≡ ok (consumed 5 "w1" offer)
unfolding consume
consume_test = refl

expired_test : (consume 86400000 "tfy_reg_ab" "w1" (offer ∷ [])).1 ≡ offer ∷ []
unfolding consume
expired_test = refl

consume-UsedUp_example :
    UsedUp 5 "tfy_reg_ab" "w1"
      (consumed 5 "w1" offer)
      (offer ∷ [])
      (consume 5 "tfy_reg_ab" "w1" (offer ∷ [])).1
consume-UsedUp_example =
    consume-UsedUp 5 "tfy_reg_ab" "w1" (offer ∷ []) (consumed 5 "w1" offer) consume_test
