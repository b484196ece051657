-- ===== src/Store/Command/Contents.antt =====
-- crates/murmur-core/src/store: so do those on items, photos and artifacts, and the deletions.
use sitewalk.Base.{Bool, Option, [], refl, sym, append-nil, arith}
use sitewalk.Base.Text.{Text}
use sitewalk.Store.Domain.{SessionStatus}
use sitewalk.Store.Op.{Env}
use sitewalk.Store.Domain.{ItemSource}
use sitewalk.Store.Sessions.{set_session_job}
use sitewalk.Store.Items.{
  edited, marked, insert_item, add_item_with_source, add_item_if_status, update_item, set_item_done,
  delete_item,
}
use sitewalk.Store.Photos.{remove_photo}
use sitewalk.Store.Artifacts.{add_artifact, update_artifact_body, delete_artifact}
use sitewalk.Store.Finish.{clear_authoritative_outputs, delete_session}
use sitewalk.Store.Command.Keeps.{Keeps, Keeps-now, Keeps-bind, Keeps-then}
use sitewalk.Store.Command.Statements.{Sound, Sound-order, Sound-get_session, Sound-get_item}
use sitewalk.Store.Command.Updates.{
  Sound-change_any, Sound-tombstone_session_row, Sound-change_item,
}
use sitewalk.Store.Command.Cascades.{Sound-clear, Sound-cascade}
use sitewalk.Store.Command.Attachments.{Sound-delete_item, Sound-drop_photo}
use sitewalk.Store.Command.Operations.{Sound-check_job, steps}

module _ {env : Env} where
  pub Sound-add_artifact :
      (id kind title body : Text) → Keeps {env = env} Sound (add_artifact id kind title body)
  unfolding add_artifact
  Sound-add_artifact id kind title body = search (steps) depth 12

  pub Sound-update_artifact_body :
      (id body : Text) → Keeps {env = env} Sound (update_artifact_body id body)
  unfolding update_artifact_body
  Sound-update_artifact_body id body = search (steps) depth 12

  pub Sound-delete_artifact : (id : Text) → Keeps {env = env} Sound (delete_artifact id)
  unfolding delete_artifact
  Sound-delete_artifact id = search (steps) depth 12

  pub Sound-insert_item :
      (id kind t : Text) (source : ItemSource)
      → Keeps {env = env} Sound (insert_item id kind t source)
  unfolding insert_item
  Sound-insert_item id kind t source = search (steps) depth 12

  pub Sound-add_item_with_source :
      (id kind t : Text) (source : ItemSource)
      → Keeps {env = env} Sound (add_item_with_source id kind t source)
  unfolding add_item_with_source
  Sound-add_item_with_source id kind t source = search (steps, Sound-insert_item) depth 12

  pub Sound-add_item_if_status :
      (id kind t : Text) (required : SessionStatus) (source : ItemSource)
      → Keeps {env = env} Sound (add_item_if_status id kind t required source)
  unfolding add_item_if_status
  Sound-add_item_if_status id kind t required source = search (steps, Sound-insert_item) depth 12

  pub Sound-update_item :
      (id : Text) (t kind right : Option Text)
      → Keeps {env = env} Sound (update_item id t kind right)
  unfolding update_item
  Sound-update_item id t kind right = Keeps-bind Sound-order (Keeps-now Sound-order) (λ at.
      Keeps-then Sound-order (Sound-change_item id (edited t kind right at) (λ r. refl) (λ r. refl))
        (Sound-get_item id))

  pub Sound-set_item_done : (id : Text) (b : Bool) → Keeps {env = env} Sound (set_item_done id b)
  unfolding set_item_done
  Sound-set_item_done id b = Keeps-bind Sound-order (Keeps-now Sound-order) (λ at.
      Keeps-then Sound-order (Sound-change_item id (marked b at) (λ r. refl) (λ r. refl))
        (Sound-get_item id))

  pub Sound-delete_item_op : (id : Text) → Keeps {env = env} Sound (delete_item id)
  unfolding delete_item
  Sound-delete_item_op id = search (steps, Sound-delete_item) depth 12

  pub Sound-remove_photo : (id : Text) → Keeps {env = env} Sound (remove_photo id)
  unfolding remove_photo
  Sound-remove_photo id = search (steps, Sound-drop_photo) depth 12

  pub Sound-delete_session : (id : Text) → Keeps {env = env} Sound (delete_session id)
  unfolding delete_session
  Sound-delete_session id = search (steps, Sound-tombstone_session_row, Sound-cascade) depth 12

  pub Sound-clear_outputs : (id : Text) → Keeps {env = env} Sound (clear_authoritative_outputs id)
  unfolding clear_authoritative_outputs
  Sound-clear_outputs id = search (steps, Sound-clear) depth 12

  pub Sound-set_session_job :
      (id : Text) (job : Option Text) → Keeps {env = env} Sound (set_session_job id job)
  unfolding set_session_job
  Sound-set_session_job id job = Keeps-then Sound-order (Sound-get_session id) (
      Keeps-then Sound-order (Sound-check_job job) (
        Keeps-bind Sound-order (Keeps-now Sound-order) (λ at.
          Sound-change_any id (λ r. record r { job_id = job; updated_at = at })
            (λ a. record {
              status = omega arith;
              transcript = ([], sym (append-nil a.transcript));
              start = refl;
            }))))
