-- ===== src/Risk.antt =====
-- apps/api/src/risk/risk.service.ts and packages/shared/src/compliance.ts: the risk log, and the words
-- that a text is logged for.
pub mod Words
use Prim.Native.String.{String}
use allinle.Prelude.{
  ℕ, Bool, true, false, List, [], ◌∷◌, ◌++◌, map, Option, none, some, any, if◌then◌else◌,
}
use allinle.Prelude.Text.{codes, includes}

pub data RiskLevel : Type 0 where
  low medium high : RiskLevel

-- What an entry says, in place of `eventType` with its `detail`.
pub data RiskEvent : Type 0 where
  sensitive_word : String → List ℕ → RiskEvent
  high_frequency_room_create : ℕ → ℕ → RiskEvent
  abnormal_initial_practice_chips : ℕ → ℕ → RiskEvent

pub record RiskLog : Type 0 where
  pub user_id : Option ℕ
  pub event : RiskEvent
  pub risk_level : RiskLevel

abbrev pub sensitive_words : List (List ℕ)
sensitive_words =
    codes "充值"
    ∷ codes "提现"
    ∷ codes "兑换"
    ∷ codes "转账"
    ∷ codes "红包"
    ∷ codes "支付"
    ∷ codes "赌"
    ∷ codes "抽水"
    ∷ codes "上分"
    ∷ codes "下分"
    ∷ []

unfoldable pub contains_sensitive_word : Option (List ℕ) → Bool
contains_sensitive_word none = false
contains_sensitive_word (some []) = false
contains_sensitive_word (some (c ∷ cs)) = any (λ word. includes word (c ∷ cs)) sensitive_words

unfoldable pub create_risk_log : List RiskLog → Option ℕ → RiskEvent → RiskLevel → List RiskLog
create_risk_log logs user event level =
    logs ++ record { user_id = user; event = event; risk_level = level } ∷ []

unfoldable pub log_sensitive_content :
    List RiskLog → Option ℕ → String → Option (List ℕ) → List RiskLog
log_sensitive_content logs user source none = logs
log_sensitive_content logs user source (some content) =
    if contains_sensitive_word (some content)
    then create_risk_log logs user (sensitive_word source content) medium
    else logs
