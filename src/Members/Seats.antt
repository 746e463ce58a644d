-- ===== src/Members/Seats.antt =====
-- The seat limit under every operation of the member service.
use mathlib.Core.Option
use configurable_crm.Prelude.{
  ℕ, ◌+◌, ◌≤◌, String, Bool, true, false, Option, some, List, [], ◌∷◌, ◌≡◌, refl, ◌∙◌, ap, arith,
  count-append, Option-cases, inl, inr,
}
use configurable_crm.Prelude.Table.{find, update, count-update, count-map, find-map}
use configurable_crm.Errors.{ok, >>=-eq-ok}
use configurable_crm.Members.Serving.{serve_induction}
use configurable_crm.Members.Defs.{
  Workspace, Membership, member_id, AvailabilityStatus, get, seats_used, invite, set_manager,
  check_manager, set_template, assign_license, revoke_license, set_seat_limit, set_availability,
  hand_over, reparent, reparent_reports, retire, deactivate, reinstate, reactivate,
  close_membership, new_member, Request, inviting, managing, templating, licensing, revoking,
  limiting, switching, deactivating, reactivating, perform, serve, set_license, set_manager_id,
  set_member,
}

-- No more licences are held than the workspace has seats.
abbrev pub WithinSeats : Workspace → Type 0
WithinSeats s = seats_used s.members ≤ s.seat_limit

-- An update of one row gives out at most one licence more, and none if it grants none.
seats_used-update :
    (i : ℕ) (f : Membership → Membership) (ms : List Membership) (m : Membership)
    → find member_id i ms ≡ some m
    → (f m).has_license ≡ m.has_license
    → seats_used (update member_id i f ms) ≡ seats_used ms
unfolding seats_used
seats_used-update i f ms m h e =
    ground (arith, count-update member_id (λ x. x.has_license) i f ms m)

seats_used-release :
    (i : ℕ) (f : Membership → Membership) (ms : List Membership) (m : Membership)
    → find member_id i ms ≡ some m
    → (f m).has_license ≡ false
    → seats_used (update member_id i f ms) ≤ seats_used ms
unfolding seats_used
seats_used-release i f ms m h e =
    ground (arith, count-update member_id (λ x. x.has_license) i f ms m)

seats_used-grant :
    (i : ℕ) (f : Membership → Membership) (ms : List Membership) (m : Membership)
    → find member_id i ms ≡ some m
    → seats_used (update member_id i f ms) ≤ seats_used ms + 1
unfolding seats_used
seats_used-grant i f ms m h = ground (arith, count-update member_id (λ x. x.has_license) i f ms m)

pub get-eq-ok :
    (i : ℕ) (s : Workspace) (m : Membership) → get i s ≡ ok m → find member_id i s.members ≡ some m
unfolding get
get-eq-ok i s m h = ground arith

-- A change of manager that succeeds found the member and changed that row alone.
pub set_manager-eq-ok :
    (i : ℕ) (p : Option ℕ) (s t : Workspace)
    → set_manager i p s ≡ ok t
    → (m : Membership) × (find member_id i s.members ≡ some m)
      × (check_manager i p s ≡ ok tt)
      × (t ≡ set_member i (set_manager_id p) s)
unfolding set_manager
set_manager-eq-ok i p s t h =
    let (m, found, rest) = >>=-eq-ok (get i s) (λ _. _) h in
    let (u, checked, e) = >>=-eq-ok (check_manager i p s) (λ _. _) rest in
    (m, get-eq-ok i s m found, checked, ground (arith, e))

-- The shape of every operation on one member that gives out no licence.
module _ (i : ℕ) (s t : Workspace) (w : WithinSeats s) where
  found_and_kept :
      (f : Membership → Membership)
      → ((m : Membership) → (f m).has_license ≡ m.has_license)
      → (m : Membership) → find member_id i s.members ≡ some m
      → seats_used (update member_id i f s.members) ≤ s.seat_limit
  found_and_kept f same m h = omega (arith, seats_used-update i f s.members m h (same m))

  assign_license-WithinSeats : assign_license i s ≡ ok t → WithinSeats t
  unfolding assign_license
  assign_license-WithinSeats h = elim (Option-cases (find member_id i s.members)) [
    | inl absent ↦ absurd (ground arith)
    | inr (m, here) ↦ ground (arith, seats_used-grant i (set_license true) s.members m here)
  ]

  revoke_license-WithinSeats : revoke_license i s ≡ ok t → WithinSeats t
  unfolding revoke_license
  revoke_license-WithinSeats h = elim (Option-cases (find member_id i s.members)) [
    | inl absent ↦ absurd (ground arith)
    | inr (m, here) ↦ ground (arith, seats_used-release i (set_license false) s.members m here refl)
  ]

  set_manager-WithinSeats : (p : Option ℕ) → set_manager i p s ≡ ok t → WithinSeats t
  set_manager-WithinSeats p h =
      let (m, here, _, e) = set_manager-eq-ok i p s t h in
      ground (arith, e, found_and_kept (set_manager_id p) (λ _. refl) m here)

  set_template-WithinSeats : (p : ℕ) → set_template i p s ≡ ok t → WithinSeats t
  unfolding set_template
  set_template-WithinSeats p h = elim (Option-cases (find member_id i s.members)) [
    | inl absent ↦ absurd (ground arith)
    | inr (m, here) ↦
        ground (arith, found_and_kept (λ m. record m { template_id = p }) (λ _. refl) m here)
  ]

  set_availability-WithinSeats :
      (a : AvailabilityStatus) (reason : Option String) (by : Option ℕ)
      → set_availability i a reason by s ≡ ok t
      → WithinSeats t
  unfolding set_availability
  set_availability-WithinSeats a reason by h = elim (Option-cases (find member_id i s.members)) [
    | inl absent ↦ absurd (ground arith)
    | inr (m, here) ↦
        ground (arith, found_and_kept (λ m. record m { availability = a }) (λ _. refl) m here)
  ]

  reactivate-WithinSeats : (by : Option ℕ) → reactivate i by s ≡ ok t → WithinSeats t
  unfolding reactivate
  reactivate-WithinSeats by h = elim (Option-cases (find member_id i s.members)) [
    | inl absent ↦ absurd (ground arith)
    | inr (m, here) ↦ ground (arith, seats_used-grant i reinstate s.members m here)
  ]

pub hand_over-members :
    (now : ℕ) (m : Membership) (target by : Option ℕ) (s s1 : Workspace) (n : ℕ)
    → hand_over now m target by s ≡ ok (s1, n)
    → (s1.members ≡ s.members) × (s1.seat_limit ≡ s.seat_limit)
unfolding hand_over get
hand_over-members now m target by s s1 n h = ground arith

reparent-has_license : (d m : Membership) → (reparent d m).has_license ≡ m.has_license
reparent-has_license d m = ground arith

pub reparent-id : (d m : Membership) → (reparent d m).id ≡ m.id
reparent-id d m = ground arith

pub deactivate-eq-ok :
    (now i : ℕ) (target by : Option ℕ) (s t : Workspace) (n : ℕ)
    → deactivate now i target by s ≡ ok (t, n)
    → (m : Membership) × (s1 : Workspace) × (find member_id i s.members ≡ some m)
      × (hand_over now m target by s ≡ ok (s1, n))
      × (t ≡ close_membership i m by s1)
unfolding deactivate
deactivate-eq-ok now i target by s t n h =
    let (m, found, rest) = >>=-eq-ok (get i s) (λ _. _) h in
    let ((s1, k), handed, e) = >>=-eq-ok (hand_over now m target by s) (λ _. _) rest in
    (m, s1, get-eq-ok i s m found, ground (arith, e, handed), ground (arith, e))

deactivate-WithinSeats :
    (now i : ℕ) (target by : Option ℕ) (s t : Workspace) (n : ℕ)
    → WithinSeats s
    → deactivate now i target by s ≡ ok (t, n)
    → WithinSeats t
unfolding reparent_reports
deactivate-WithinSeats now i target by s t n w h =
    let (m, s1, here, handed, e) = deactivate-eq-ok now i target by s t n h in
    let (same, limit) = hand_over-members now m target by s s1 n handed in
    let moved = find-map member_id i (reparent m) s.members (reparent-id m) in
    let r = reparent_reports m s.members in
    let up : find member_id i r ≡ some (reparent m m) = moved ∙ ap (Option.map (reparent m)) here in
    let less = seats_used-release i retire r (reparent m m) up refl in
    let kept =
      count-map member_id (λ x. x.has_license) (reparent m) s.members (reparent-has_license m) in
    unfold seats_used in ground (arith, e, same, limit, less, kept)

invite-WithinSeats :
    (id user template : ℕ) (manager : Option ℕ) (grant : Bool) (s t : Workspace)
    → WithinSeats s
    → invite id user template manager grant s ≡ ok t
    → WithinSeats t
unfolding invite
invite-WithinSeats id user template manager grant s t w h =
    let r = new_member id user template manager grant in
    ground (arith, count-append {0} (λ (x : Membership). x.has_license) s.members (r ∷ []))

set_seat_limit-WithinSeats :
    (limit : ℕ) (s t : Workspace) → set_seat_limit limit s ≡ ok t → WithinSeats t
unfolding set_seat_limit
set_seat_limit-WithinSeats limit s t h = ground arith

-- Whatever the request, a state within its seats is left within its seats: invitations, licences,
-- reactivations and a lowered limit included.
pub perform-WithinSeats :
    (r : Request) (s t : Workspace) → WithinSeats s → perform r s ≡ ok t → WithinSeats t
unfolding perform
perform-WithinSeats (inviting id user template manager grant) s t w h =
    invite-WithinSeats id user template manager grant s t w h
perform-WithinSeats (managing i p) s t w h = set_manager-WithinSeats i s t w p h
perform-WithinSeats (templating i p) s t w h = set_template-WithinSeats i s t w p h
perform-WithinSeats (licensing i) s t w h = assign_license-WithinSeats i s t w h
perform-WithinSeats (revoking i) s t w h = revoke_license-WithinSeats i s t w h
perform-WithinSeats (limiting n) s t w h = set_seat_limit-WithinSeats n s t h
perform-WithinSeats (switching i a reason by) s t w h =
    set_availability-WithinSeats i s t w a reason by h
perform-WithinSeats (deactivating now i target by) s t w h =
    let ((s', n), done, e) = >>=-eq-ok (deactivate now i target by s) (λ _. _) h in
    deactivate-WithinSeats now i target by s t n w (ground (arith, done, e))
perform-WithinSeats (reactivating i by) s t w h = reactivate-WithinSeats i s t w by h

-- After any requests, in any order and failing or not, no more licences are held than there are
-- seats, if that held before.
pub serve-WithinSeats :
    (rs : List Request) (s : Workspace) → WithinSeats s → WithinSeats (serve rs s)
serve-WithinSeats = serve_induction WithinSeats perform-WithinSeats
