-- ===== src/System/Payloads.antt =====
-- About the payloads that onSystemMessage sends to the storage server: the account that each names.
use droneengage_server.Base.{
  ℕ, ◌≡◌, refl, false, Option, none, some, String, arith, inl, inr, Bool-cases, Json, Fields, prop,
  prop-set_opt, is_truthy,
}
use droneengage_server.Constants.{
  type_load_mission, type_save_mission, type_delete_mission, type_save_news,
}
use droneengage_server.System.Tasks.{
  load_mission_payload, save_mission_payload, delete_mission_payload,
}
use droneengage_server.System.News.{save_news_payload}
use droneengage_server.System.Scope.{Names, IfSome, is_scoped}

pub load_mission_payload-Names :
    (account : String) (mms : Fields)
    → Names (some account) type_load_mission (load_mission_payload account mms)
unfolding load_mission_payload
load_mission_payload-Names account mms = elim (Bool-cases (is_truthy (prop "missionId" mms))) [
  | inl e ↦ (
    λ h. (account, refl, rw (e, load_mission_payload) (simp prop-set_opt)),
    λ h. absurd (omega arith),
  )
  | inr e ↦ (
    λ h. (account, refl, rw (e, load_mission_payload) (simp prop-set_opt)),
    λ h. absurd (omega arith),
  )
]

pub save_mission_payload-Names :
    (account : String) (mms : Fields)
    → Names (some account) type_save_mission (save_mission_payload account mms)
unfolding save_mission_payload
save_mission_payload-Names account mms =
    (λ h. (account, refl, simp prop-set_opt), λ h. absurd (omega arith))

pub delete_mission_payload-Names :
    (account : String) (mms : Fields)
    → Names (some account) type_delete_mission (delete_mission_payload account mms)
unfolding delete_mission_payload
delete_mission_payload-Names account mms =
    (λ h. (account, refl, simp prop-set_opt), λ h. absurd (omega arith))

pub save_news_payload-Names :
    (author : Json) (account : String) (mms : Fields)
    → Names (some account) type_save_news (save_news_payload author account mms)
unfolding save_news_payload
save_news_payload-Names author account mms = elim (Bool-cases (is_truthy (prop "newsId" mms))) [
  | inl e ↦ (
    λ h. (account, refl, rw (e, save_news_payload) (simp prop-set_opt)),
    λ h. rw (e, save_news_payload) (simp prop-set_opt),
  )
  | inr e ↦ (
    λ h. (account, refl, rw (e, save_news_payload) (simp prop-set_opt)),
    λ h. rw (e, save_news_payload) (simp prop-set_opt),
  )
]

-- a command of tasks is for no account
pub unscoped :
    (account : Option String) (mt : ℕ) (o : Option Fields)
    → is_scoped mt ≡ false
    → IfSome (Names account mt) o
unscoped account mt none h = tt
unscoped account mt (some payload) h = (λ k. ground arith, λ k. ground arith)
