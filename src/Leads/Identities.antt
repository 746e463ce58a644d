-- ===== src/Leads/Identities.antt =====
-- The requests of `LeadService` (api/app/services/leads.py), and what all of them keep.
use configurable_crm.Prelude.{
  any, ◌&&◌, false, ap, sym, ◌∙◌, ℕ, ◌+◌, String, Bool, Option, none, some, List, [], ◌∷◌, ◌++◌,
  ◌≡◌, inl, inr, refl, arith, count, count-append, str_eq, eq_iff, get_key, map, Bool-cases,
}
use configurable_crm.Prelude.Table.{count-update}
use configurable_crm.Json.{Json}
use configurable_crm.Errors.{Result, ok, >>=-eq-ok, ok_inj, ◌>>=◌}
use configurable_crm.Filters.Dsl.{FilterNode}
use configurable_crm.Timeline.{
  Lead, Ledger, lead_created, assignment_change, record_created, record_assignment_change,
}
use configurable_crm.Undo.Preview.{Caller, lead_key}
use configurable_crm.Leads.Values.{Registry, Payload, LeadField, validate_create}
use configurable_crm.Leads.Merge.{
  is_live, Database, Schema, Edit, get_lead, require_key, assert_identity_free,
}
use configurable_crm.Leads.Update.{apply_update, update_lead, soft_delete}
use configurable_crm.Leads.Undone.{get_lead-find}
use configurable_crm.Permissions.Projection.{check_keys}
use configurable_crm.Leads.Selected.{bulk_update-parts}
use configurable_crm.Leads.Create.{
  Rules, NewLead, create_lead, check_new, add_lead, required_identity, resolve_initial_stage,
  check_assignee, new_row, route, record_new,
}
use configurable_crm.Leads.Bulk.{has_duplicate, bulk_update}
use configurable_crm.Leads.Identity.{
  IsUnique, holds_identity, count-free, Keeps, Keeps-trans, Keeps-parts, append_action-Keeps,
  assert_identity_free-count,
}
use configurable_crm.Leads.Unique.{apply_update-Retains, update-IsUnique}

pub data Request : Type 0 where
  create : NewLead → Request
  edit_one : (lead_id : ℕ) → Edit → Request
  edit_many : (lead_ids : List ℕ) → Edit → Request
  delete : (lead_id : ℕ) → Request

shared :
    (s : String) (l : Lead) (leads : List Lead)
    → l.identity_value ≡ s
    → any (λ (x : Lead). str_eq x.identity_value l.identity_value && is_live x) leads ≡ false
    → count (holds_identity s) leads ≡ 0
shared s l leads e h =
    count-free s leads
      (ap (λ k. any (λ (x : Lead). str_eq x.identity_value k && is_live x) leads) (sym e) ∙ h)

-- What the unique index lets through.
has_duplicate-IsUnique : (leads : List Lead) → has_duplicate leads ≡ false → IsUnique leads
unfolding has_duplicate
has_duplicate-IsUnique [] h s = omega arith
has_duplicate-IsUnique (l ∷ leads) h s =
    let rest = has_duplicate-IsUnique leads (ground (arith, h)) s in
    elim (Bool-cases (holds_identity s l)) [
      | inl e ↦
          let same = (eq_iff l.identity_value s).0 (ground (arith, e)) in
          ground (arith, e, shared s l leads same (ground (arith, e, h)))
      | inr e ↦ ground (arith, e, rest)
    ]

module _ (registry : Registry) (show : Json → String) (holds : FilterNode → Lead → Bool)
    (schema : Schema) (by : Caller) where
  -- One request at a time, with the tables it leaves.
  unfoldable pub perform : ℕ → Request → Rules × Database → Result (Rules × Database)
  unfolding create_lead update_lead bulk_update soft_delete
  perform now (create new) (r, db) = do
    done ← create_lead registry show holds schema by now new r db
    ok (done.1, done.2)
  perform now (edit_one i edit) (r, db) = do
    after ← update_lead registry show schema by now i edit db
    ok (r, after)
  perform now (edit_many ids edit) (r, db) = do
    done ← bulk_update registry show schema by edit now ids db
    ok (r, done.2)
  perform now (delete i) (r, db) = do after ← soft_delete by now i db; ok (r, after)

  update_lead-IsUnique :
      (now i : ℕ) (edit : Edit) (db after : Database)
      → update_lead registry show schema by now i edit db ≡ ok after
      → IsUnique db.leads
      → IsUnique after.leads
  unfolding update_lead
  update_lead-IsUnique now i edit db after h unique =
      let (lead, found, rest) = >>=-eq-ok (get_lead by i db.leads) (λ _. _) h in
      let (out, run, e) =
        >>=-eq-ok (apply_update registry show schema by edit db _ now lead _) (λ _. _) rest in
      rw (← ok_inj e) (
        update-IsUnique db.leads i lead out.0 (get_lead-find by i db.leads lead found)
          (apply_update-Retains registry show schema by edit db _ now lead _ out run) unique)

  soft_delete-IsUnique :
      (now i : ℕ) (db after : Database)
      → soft_delete by now i db ≡ ok after
      → IsUnique db.leads
      → IsUnique after.leads
  unfolding soft_delete
  soft_delete-IsUnique now i db after h unique s =
      let (lead, found, e) = >>=-eq-ok (get_lead by i db.leads) (λ _. _) h in
      let gone = λ (l : Lead). record l { deleted_at = some now } in
      let moved =
        count-update lead_key (holds_identity s) i gone db.leads lead
          (get_lead-find by i db.leads lead found) in
      rw (← ok_inj e) (ground (arith, unique s, moved))

  record_new-Keeps :
      (now : ℕ) (assignee : Option ℕ) (lead : Lead) (l : Ledger)
      → Keeps lead (record_new by now assignee lead l).0
  unfolding record_new record_created record_assignment_change
  record_new-Keeps now none lead l = append_action-Keeps _ now lead lead_created _ _
  record_new-Keeps now (some m) lead l =
      Keeps-trans lead _ _ (append_action-Keeps _ now lead lead_created _ _)
        (append_action-Keeps _ now _ assignment_change _ _)

  check_new-free :
      (new : NewLead) (db : Database) (c : Payload × String × Option ℕ)
      → check_new registry show holds schema by new db ≡ ok c
      → count (holds_identity c.1) db.leads ≡ 0
  unfolding check_new
  check_new-free new db c h =
      let (key, _, h1) = >>=-eq-ok (require_key schema.identity_key) (λ _. _) h in
      let (_, _, h2) =
        >>=-eq-ok
          (check_keys by.grants (map (λ (v : String × Option Json). v.0) new.values)
            (map (λ (f : LeadField). f.key) schema.fields))
          (λ _. _) h1 in
      let (validated, _, h3) =
        >>=-eq-ok (validate_create registry schema.fields new.values) (λ _. _) h2 in
      let (identity, _, h4) =
        >>=-eq-ok (required_identity key (get_key key validated)) (λ _. _) h3 in
      let (u, free, h5) = >>=-eq-ok (assert_identity_free (show identity) db.leads) (λ _. _) h4 in
      let (stage, _, h6) = >>=-eq-ok (resolve_initial_stage new.stage_id db.stages) (λ _. _) h5 in
      let (_, _, e) = >>=-eq-ok (check_assignee new.assignee_id db) (λ _. _) h6 in
      rw (← ok_inj e) (assert_identity_free-count (show identity) db.leads u free)

  add_lead-row :
      (now : ℕ) (new : NewLead) (c : Payload × String × Option ℕ) (r : Rules) (db : Database)
      (done : ℕ × Rules × Database)
      → add_lead registry show holds schema by now new c r db ≡ ok done
      → (row : Lead) × (done.2.leads ≡ db.leads ++ row ∷ [])
        × (row.identity_value ≡ c.1)
        × (row.deleted_at ≡ none)
  unfolding add_lead new_row
  add_lead-row now new c r db done h =
      let l = db.ledger in
      let lead = new_row now (l.draw l.drawn) c.1 c.0 c.2 new in
      let (routed, _, e) =
        >>=-eq-ok (route registry show holds schema by new r db lead) (λ _. _) h in
      let assigned : Lead = record lead { assignee_id = routed.0 } in
      let started = record l { drawn = l.drawn + 1 } in
      let (named, alive, _) =
        Keeps-parts assigned _ (record_new-Keeps now routed.0 assigned started) in
      rw (← ok_inj e) (_, refl, named, alive)

  create_lead-IsUnique :
      (now : ℕ) (new : NewLead) (r : Rules) (db : Database) (done : ℕ × Rules × Database)
      → create_lead registry show holds schema by now new r db ≡ ok done
      → IsUnique db.leads
      → IsUnique done.2.leads
  unfolding create_lead
  create_lead-IsUnique now new r db done h unique s =
      let (c, checked, run) =
        >>=-eq-ok (check_new registry show holds schema by new db) (λ _. _) h in
      let (row, added, named, alive) = add_lead-row now new c r db done run in
      let free = check_new-free new db c checked in
      rw (added, count-append (holds_identity s) db.leads (row ∷ []))
        (elim (Bool-cases (str_eq row.identity_value s)) [
          | inl e ↦
              let none_yet : count (holds_identity s) db.leads ≡ 0 =
                rw (← (eq_iff row.identity_value s).0 e, named) free in
              ground (arith, none_yet, e, alive)
          | inr e ↦ ground (arith, unique s, e)
        ])

  -- A request on leads that succeeds keeps every identity with at most one live lead, if it was so
  -- before: a creation, an edit and a deletion by their own checks, a bulk edit by the unique index.
  pub perform-IsUnique :
      (now : ℕ) (q : Request) (s after : Rules × Database)
      → perform now q s ≡ ok after
      → IsUnique s.1.leads
      → IsUnique after.1.leads
  unfolding perform
  perform-IsUnique now (create new) s after h unique =
      let (done, run, e) =
        >>=-eq-ok (create_lead registry show holds schema by now new s.0 s.1) (λ _. _) h in
      rw (← ok_inj e) (create_lead-IsUnique now new s.0 s.1 done run unique)
  perform-IsUnique now (edit_one i edit) s after h unique =
      let (done, run, e) =
        >>=-eq-ok (update_lead registry show schema by now i edit s.1) (λ _. _) h in
      rw (← ok_inj e) (update_lead-IsUnique now i edit s.1 done run unique)
  perform-IsUnique now (edit_many ids edit) s after h unique =
      let (done, run, e) =
        >>=-eq-ok (bulk_update registry show schema by edit now ids s.1) (λ _. _) h in
      rw (← ok_inj e) (
        let (_, _, _, _, _, indexed) =
          bulk_update-parts registry show schema by edit now ids done.1 s.1 done.2 done.0 run in
        has_duplicate-IsUnique done.2.leads indexed)
  perform-IsUnique now (delete i) s after h unique =
      let (done, run, e) = >>=-eq-ok (soft_delete by now i s.1) (λ _. _) h in
      rw (← ok_inj e) (soft_delete-IsUnique now i s.1 done run unique)
