-- ===== src/Session/Manager/Configuration.antt =====
-- internal/session/manager.go: `New`, by the policy of the manager it makes.
use ai_etl_platform.Common.{
  String, str_eq, Option, none, some, [], ◌∷◌, Bool, true, false, not, ◌&&◌, ◌||◌, if◌then◌else◌,
  ltb, ◌==◌, Dict, is_nil, Outcome, ok, err, trim_space, is_blank,
}
use ai_etl_platform.Session.Manager.Commands.{Policy, SessionFault, invalid}

abbrev pub known_method : String → Bool
known_method m = str_eq m "local" || str_eq m "federated"

abbrev pub assurances_fit : Dict String → Bool
assurances_fit [] = true
assurances_fit ((method, a) ∷ m) =
    known_method method && not (is_blank a) && str_eq a (trim_space a) && assurances_fit m

abbrev pub offers : String → Dict String → Bool
offers assurance [] = false
offers assurance ((method, a) ∷ m) = str_eq a assurance || offers assurance m

abbrev pub risks_fit : Dict String → Bool
risks_fit [] = true
risks_fit ((action, risk) ∷ m) =
    not (is_blank action) && (str_eq risk "standard" || str_eq risk "high") && risks_fit m

-- a policy that names no assurances takes federated logins
abbrev pub with_assurances : Policy → Policy
with_assurances p =
    if is_nil p.establishment_assurances
    then record p { establishment_assurances = ("federated", p.high_risk_assurance) ∷ [] }
    else p

-- `New`, by the policy of the manager it makes
unfoldable pub new_manager : Policy → Outcome SessionFault Policy
new_manager p =
    if p.idle_timeout == 0
      || p.absolute_lifetime == 0
      || p.high_risk_freshness == 0
      || is_blank p.high_risk_assurance
      || is_blank p.revision
      || ltb p.absolute_lifetime p.idle_timeout
      || is_nil p.action_risks
    then err invalid
    else let q = with_assurances p in
      if not (assurances_fit q.establishment_assurances)
        || not (offers q.high_risk_assurance q.establishment_assurances)
        || not (risks_fit q.action_risks)
      then err invalid
      else ok q

abbrev pub assured : Option String → String
assured none = ""
assured (some a) = a
