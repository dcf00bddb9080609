-- ===== src/Permissions/Sessions/Tests.antt =====
-- The sessions of a request on small values.
use dsh_passwords.Prelude.{◌≡◌, refl, true, some, [], ◌∷◌}
use dsh_passwords.Text.{codes, has_text}
use dsh_passwords.Json.{Json, string, array, object, nil, cons, end, field, get_field}
use dsh_passwords.Permissions.Extract.{walk}
use dsh_passwords.Permissions.Sessions.{
  collect_authorized_session_ids, visit_ids, parse_session_address, add, is_address_key, is_id_key,
  replace_archived_session_snapshot, take_ids,
}
use dsh_passwords.Permissions.Sessions.Collected.{IsCollected}
use dsh_passwords.Permissions.Sessions.Authorized.{collect_authorized_session_ids-IsCollected}

abbrev request : Json
request = object (
    field (codes "address")
      (object (
        field (codes "kind") (string (codes "session"))
          (field (codes "sessionId") (string (codes "a")) end)))
      (field (codes "args") (object (field (codes "agentId") (string (codes "b")) end)) end))

request_ids : collect_authorized_session_ids request ≡ some (codes "a" ∷ codes "b" ∷ [])
unfolding collect_authorized_session_ids visit_ids parse_session_address add is_address_key
    is_id_key get_field has_text
request_ids = refl

collect_authorized_session_ids-IsCollected_example :
    IsCollected (codes "a" ∷ codes "b" ∷ []) 0 request
collect_authorized_session_ids-IsCollected_example =
    collect_authorized_session_ids-IsCollected request (codes "a" ∷ codes "b" ∷ []) request_ids

abbrev registry : Json
registry = object (
    field (codes "archivedSessionIds")
      (array (cons (string (codes "a")) (cons (string []) (cons (string (codes "a")) nil)))) end)

registry_replaced :
    replace_archived_session_snapshot (codes "z" ∷ []) registry ≡ (codes "a" ∷ [], true)
unfolding replace_archived_session_snapshot walk take_ids add get_field has_text
registry_replaced = refl
