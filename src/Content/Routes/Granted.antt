-- ===== src/Content/Routes/Granted.antt =====
-- apps/api/src/content/routes.ts: what an answered request has done, and a refused one has not.
use presslabz.Base.{ℕ, ◌≡◌, refl, sym, ◌∙◌, ap, subst, Bool, true, false, ◌&&◌, some, str_eq}
use presslabz.Access.Ownership.{Uuid, Actor}
use presslabz.Access.Policy.{can_write}
use presslabz.Content.Rows.{ContentRow, ContentState, RawState, Patch, Db}
use presslabz.Content.Database.{Postgres}
use presslabz.Content.Tree.{find_row}
use presslabz.Content.Schema.{ContentSchema, parse_state, to_state, merge_patch}
use presslabz.Content.References.{MediaIn}
use presslabz.Content.History.{Draws}
use presslabz.Content.Write.Updated.{IsUpdated, update_content-IsUpdated}
use presslabz.Content.Write.Versions.{update_content-found}
use presslabz.Content.Routes.{
  sent, Outcome, is_published, stamp_publication, may_write, derive, update_options, reply_update,
  previous_status, patch_content,
}
use presslabz.Content.Routes.Writes.{
  well_formed, parse_state-fields, date_on_entry, stamp_publication-date, stamp_publication-status,
  patched, sent-written,
}
use presslabz.Hooks.Events.{transitions_for, content_event_of}

both-true : (a b : Bool) → a && b ≡ true → (a ≡ true) × (b ≡ true)
both-true true true e = (refl, refl)
both-true true false e = absurd (cc)
both-true false b e = absurd (cc)

some_same : (a b : ContentRow) → some a ≡ some b → a ≡ b
some_same a b e = cc

-- The request found the document, which is of the type; its user may make this change of it; the
-- row of the reply is stored; and what is announced goes from the status that the document had.
pub record IsGranted (type : ContentSchema) (actor : Actor) (id : Uuid) (db : Db) (row : ContentRow)
    (o : Outcome) : Type 0 where
  pub current : ContentRow
  pub found : find_row id db.contents ≡ some current
  pub of_type : str_eq current.type type.type.name ≡ true
  pub allowed :
      can_write type.type.access
        (record { next_status = row.status; current_status = some current.status })
        actor
        current.author_id
      ≡ true
  pub stored : find_row id o.db.contents ≡ some row
  pub announced : o.announced ≡ transitions_for current.status (content_event_of row)

module _ (pg : Postgres) (draws : Draws) (media_in : MediaIn) (actor : Actor) (now : ℕ)
    (type : ContentSchema) (id : Uuid) (version : ℕ) (patch : Patch) (db : Db) where
  abbrev after : Outcome
  after = patch_content pg draws media_in actor now (some type) (well_formed id version patch) db

  updated :
      (row : ContentRow)
      → after.reply ≡ sent row
      → IsUpdated draws type id patch (update_options type actor now version) db row after.db
  updated row e =
      update_content-IsUpdated pg draws type media_in id patch
        (update_options type actor now version) db
        (sent-written pg draws media_in actor now type id version patch db row e)

  may_write-parts :
      (current : ContentRow) (next : ContentState)
      → may_write type actor current next ≡ true
      → (str_eq current.type type.type.name ≡ true)
        × (can_write type.type.access
              (record { next_status = next.status; current_status = some current.status })
              actor
              current.author_id
            ≡ true)
  unfolding may_write
  may_write-parts current next e = both-true _ _ e

  -- A change that was answered with a row was made to a document of the type by a user who may
  -- write it, from the status that it had to the one that it got; the row is stored, and the
  -- announcements are those of that change of status.
  pub patch_content-IsGranted :
      (row : ContentRow)
      → (patch_content pg draws media_in actor now
          (some type)
          (well_formed id version patch)
          db).reply
        ≡ sent row
      → IsGranted type actor id db row
          (patch_content pg draws media_in actor now (some type) (well_formed id version patch) db)
  patch_content-IsGranted row e =
      let u = updated row e in
      let written = sent-written pg draws media_in actor now type id version patch db row e in
      let (of_type, allowed) = may_write-parts u.current u.next u.accepted.allowed in
      let status : u.next.status ≡ row.status =
        ap (λ (r : ContentRow). r.status) (sym u.returned) in
      record {
        current = u.current;
        found = u.found;
        of_type = of_type;
        allowed =
            subst
              (λ s.
                can_write type.type.access
                  (record { next_status = s; current_status = some u.current.status }) actor
                  u.current.author_id
                ≡ true)
              status allowed;
        stored =
            update_content-found pg draws type media_in id patch
              (update_options type actor now version) db written;
        announced =
            ap (λ (o : Outcome). o.announced)
              (patched pg draws media_in actor now type id version patch db
                ∙ ap (reply_update db (find_row id db.contents)) written)
            ∙ ap (λ c. transitions_for (previous_status c row) (content_event_of row)) u.found;
      }

  entered :
      (current : ContentRow) (next : ContentState) (merged : RawState)
      → is_published current.status ≡ false
      → is_published next.status ≡ true
      → parse_state type (derive type actor now current merged) ≡ some next
      → next.published_at ≡ date_on_entry now merged.published_at
  entered current next merged before entering e =
      let stamped : parse_state type (stamp_publication now merged) ≡ some next = rw before at e in
      let (status, date) = parse_state-fields type (stamp_publication now merged) next stamped in
      let kept : is_published merged.status ≡ true =
        ap is_published
          (sym (status ∙ stamp_publication-status now merged merged.published_at refl))
        ∙ entering in
      date ∙ stamp_publication-date now merged merged.published_at refl kept

  -- A change that publishes a document gives it the date of the request where the merge of the
  -- patch has none, keeps a date that is there, and leaves it without one where the patch says
  -- `null`.
  pub patch_content-date_on_entry :
      (row current : ContentRow)
      → find_row id db.contents ≡ some current
      → (patch_content pg draws media_in actor now
          (some type)
          (well_formed id version patch)
          db).reply
        ≡ sent row
      → is_published current.status ≡ false
      → is_published row.status ≡ true
      → row.published_at ≡ date_on_entry now (merge_patch (to_state current) patch).published_at
  patch_content-date_on_entry row current found e before entering =
      let u = updated row e in
      let same : u.current ≡ current = some_same u.current current (sym u.found ∙ found) in
      let entering_next : is_published u.next.status ≡ true =
        ap (λ (r : ContentRow). is_published r.status) (sym u.returned) ∙ entering in
      let before_then : is_published u.current.status ≡ false =
        ap (λ (r : ContentRow). is_published r.status) same ∙ before in
      ap (λ (r : ContentRow). r.published_at) u.returned
      ∙ entered u.current u.next (merge_patch (to_state u.current) patch) before_then entering_next
          u.accepted.state
      ∙ ap (λ c. date_on_entry now (merge_patch (to_state c) patch).published_at) same
