-- ===== src/Agent/Approval/Order.antt =====
-- The order in which a run's approvals are listed.
use Prim.Native.String.{String}
use Prim.Native.String.compare as Compare
use ai_etl_platform.Common.{text_lt, ◌≡◌, true, false, arith}
use ai_etl_platform.Agent.Approval.{ApprovalRequest, comes_before}

text_lt_asymm : (a b : String) → text_lt a b ≡ true → text_lt b a ≡ false
unfolding text_lt
text_lt_asymm String.[] String.[] h = ground (arith, Compare.nil-nil, h)
text_lt_asymm String.[] (String.◌∷◌ d t) h = rw (Compare.cons-nil d t, text_lt)
text_lt_asymm (String.◌∷◌ c s) String.[] h = absurd (ground (arith, Compare.cons-nil c s, h))
text_lt_asymm (String.◌∷◌ c s) (String.◌∷◌ d t) h =
    ground (arith, Compare.cons-cons c d s t, Compare.cons-cons d c t s, h, text_lt_asymm s t)

pub comes_before_asymm :
    (a b : ApprovalRequest) → comes_before a b ≡ true → comes_before b a ≡ false
unfolding comes_before
comes_before_asymm a b h = ground (arith, text_lt_asymm a.id b.id)
