-- ===== src/Work/Tidy.antt =====
-- The requests of `LabelService` (api/app/services/work.py) one after another.
use configurable_crm.Prelude.{
  ℕ, ◌≤◌, String, Bool, true, false, not, ◌&&◌, Option, none, some, List, [], ◌∷◌, ◌≡◌, refl, arith,
  inl, inr, ◌==◌, ==_iff, leb, length, length-append, any, keep, count, count-append, str_eq,
  eq_iff, if◌then◌else◌, Bool-cases,
}
use configurable_crm.Prelude.Table.{find, update, count-update, count-update_same, Distinct}
use configurable_crm.Errors.{
  Result, ok, raise_if, raise_if-passes, >>=-eq-ok, ok_inj, conflict, unprocessable, label_limit,
  duplicate_label, label_archived,
}
use configurable_crm.Work.Labels.{
  Label, LeadLabel, Board, max_labels, label_key, get_label, is_link, live_lead, is_called,
  create_label, renamed, update_label, archive_label, attach, detach, set_color,
}

pub data Request : Type 0 where
  create : (id : ℕ) → String → Option String → Request
  change : (id : ℕ) → Option String → Option String → Request
  archive : (id : ℕ) → Request
  link : (lead label : ℕ) → Request
  unlink : (lead label : ℕ) → Request

abbrev called : (String → String) → String → Label → Bool
called lower n l = str_eq (lower l.name) n

length-update :
    (i : ℕ) (f : Label → Label) (labels : List Label)
    → length (update label_key i f labels) ≡ length labels
unfolding update
length-update i f [] = refl
length-update i f (l ∷ labels) = ground (arith, length-update i f labels)

count-keep-le : (p q : LeadLabel → Bool) (xs : List LeadLabel) → count p (keep q xs) ≤ count p xs
count-keep-le p q [] = omega arith
count-keep-le p q (x ∷ xs) = ground (arith, count-keep-le p q xs)

count-absent : (p : LeadLabel → Bool) (xs : List LeadLabel) → any p xs ≡ false → count p xs ≡ 0
count-absent p [] h = refl
count-absent p (x ∷ xs) h = ground (arith, h, count-absent p xs)

count-any : (p : Label → Bool) (xs : List Label) → any p xs ≡ false → count p xs ≡ 0
count-any p [] h = refl
count-any p (x ∷ xs) h = ground (arith, h, count-any p xs)

count-others :
    (p : Label → Bool) (i : ℕ) (xs : List Label)
    → find label_key i xs ≡ none
    → any (λ (o : Label). not (o.id == i) && p o) xs ≡ false
    → count p xs ≡ 0
unfolding find
count-others p i [] gone h = refl
count-others p i (y ∷ ys) gone h = ground (arith, gone, h, count-others p i ys)

-- No other label of the table has the property, so none but the found one counts.
count-le_of_others :
    (p : Label → Bool) (i : ℕ) (xs : List Label) (l : Label)
    → Distinct label_key xs
    → find label_key i xs ≡ some l
    → any (λ (o : Label). not (o.id == i) && p o) xs ≡ false
    → count p xs ≤ (if p l then 1 else 0)
unfolding find
count-le_of_others p i [] l d here h = absurd (ground (arith, here))
count-le_of_others p i (x ∷ xs) l (fresh, d) here h = elim (Bool-cases (x.id == i)) [
  | inl e ↦
      let gone : find label_key i xs ≡ none = rw (← (==_iff x.id i).0 e) fresh in
      ground (arith, e, here, h, count-others p i xs gone)
  | inr e ↦ ground (arith, e, here, h, count-le_of_others p i xs l d)
]

module _ (lower : String → String) where
  unfoldable pub perform : Request → Board → Result Board
  unfolding create_label update_label archive_label attach detach
  perform (create id name color) b = create_label lower id name color b
  perform (change id name color) b = update_label lower id name color b
  perform (archive id) b = archive_label id b
  perform (link lead label) b = attach lead label b
  perform (unlink lead label) b = ok (detach lead label b)

  -- At most 100 labels, no two with one name in lower case, and no link twice.
  abbrev pub IsTidy : Board → Type 0
  IsTidy b =
      (length b.labels ≤ 100)
      × ((n : String) → count (called lower n) b.labels ≤ 1)
      × ((lead label : ℕ) → count (is_link lead label) b.links ≤ 1)

  create_label-IsTidy :
      (id : ℕ) (name : String) (color : Option String) (b after : Board)
      → create_label lower id name color b ≡ ok after
      → IsTidy b
      → IsTidy after
  unfolding create_label
  create_label-IsTidy id name color b after h (few, unique, once) =
      let (u, g, h1) =
        >>=-eq-ok (raise_if (leb max_labels (length b.labels)) (unprocessable label_limit)) (λ _. _)
          h in
      let (v, k, e) =
        >>=-eq-ok (raise_if (any (is_called lower name) b.labels) (conflict duplicate_label))
          (λ _. _) h1 in
      let room =
        raise_if-passes (leb max_labels (length b.labels)) (unprocessable label_limit) u g in
      let free =
        count-any (is_called lower name) b.labels
          (raise_if-passes (any (is_called lower name) b.labels) (conflict duplicate_label) v k) in
      rw (← ok_inj e) (
        ground (
          arith,
          room,
          length-append b.labels (
              record {
                id = id;
                name = name;
                color = color;
                sort_order = length b.labels;
                is_archived = false;
              }
              ∷ []),
        ),
        (λ n.
            rw
              (count-append (called lower n) b.labels (
                record {
                  id = id;
                  name = name;
                  color = color;
                  sort_order = length b.labels;
                  is_archived = false;
                }
                ∷ []))
              (elim (Bool-cases (str_eq (lower name) n)) [
                | inl same ↦
                    let none_yet : count (called lower n) b.labels ≡ 0 =
                      rw (← (eq_iff (lower name) n).0 same) free in
                    ground (arith, none_yet, same)
                | inr other ↦ ground (arith, other, unique n)
              ])),
        once,
      )

  renamed-Tidy :
      (i : ℕ) (name : Option String) (labels out : List Label)
      → renamed lower i name labels ≡ ok out
      → (l : Label) → find label_key i labels ≡ some l
      → Distinct label_key labels
      → ((n : String) → count (called lower n) labels ≤ 1)
      → (length out ≡ length labels) × ((n : String) → count (called lower n) out ≤ 1)
  unfolding renamed
  renamed-Tidy i none labels out h l here d unique = rw (← ok_inj h) (refl, unique)
  renamed-Tidy i (some name) labels out h l here d unique =
      let clash = any (λ (o : Label). not (o.id == i) && is_called lower name o) labels in
      let (v, k, e) = >>=-eq-ok (raise_if clash (conflict duplicate_label)) (λ _. _) h in
      let free = raise_if-passes clash (conflict duplicate_label) v k in
      let f = λ (x : Label). record x { name = name } in
      rw (← ok_inj e) (
        length-update i f labels,
        (λ n.
            let moved = count-update label_key (called lower n) i f labels l here in
            elim (Bool-cases (str_eq (lower name) n)) [
              | inl same ↦
                  let others : count (called lower n) labels ≤ (if called lower n l then 1 else 0) =
                    rw (← (eq_iff (lower name) n).0 same)
                      (count-le_of_others (is_called lower name) i labels l d here free) in
                  ground (arith, moved, others, same)
              | inr other ↦ ground (arith, moved, other, unique n)
            ]),
      )

  get_label-find :
      (i : ℕ) (labels : List Label) (l : Label)
      → get_label i labels ≡ ok l
      → find label_key i labels ≡ some l
  unfolding get_label
  get_label-find i labels l h = ground (arith, h)

  -- A change of a row that keeps its name.
  update-Tidy :
      (i : ℕ) (f : Label → Label) (labels : List Label)
      → ((l : Label) → (f l).name ≡ l.name)
      → ((n : String) → count (called lower n) labels ≤ 1)
      → (n : String) → count (called lower n) (update label_key i f labels) ≤ 1
  update-Tidy i f labels same unique n =
      rw (count-update_same label_key (called lower n) i f labels (λ l _. rw (same l) refl))
        (unique n)

  set_color-name : (c : Option String) (l : Label) → (set_color c l).name ≡ l.name
  set_color-name none l = refl
  set_color-name (some c) l = refl

  update_label-IsTidy :
      (i : ℕ) (name color : Option String) (b after : Board)
      → update_label lower i name color b ≡ ok after
      → Distinct label_key b.labels
      → IsTidy b
      → IsTidy after
  unfolding update_label
  update_label-IsTidy i name color b after h d (few, unique, once) =
      let (l, found, h1) = >>=-eq-ok (get_label i b.labels) (λ _. _) h in
      let (out, run, e) = >>=-eq-ok (renamed lower i name b.labels) (λ _. _) h1 in
      let (long, unique') =
        renamed-Tidy i name b.labels out run l (get_label-find i b.labels l found) d unique in
      rw (← ok_inj e) (
        omega (arith, few, long, length-update i (set_color color) out),
        update-Tidy i (set_color color) out (set_color-name color) unique',
        once,
      )

  archive_label-IsTidy :
      (i : ℕ) (b after : Board) → archive_label i b ≡ ok after → IsTidy b → IsTidy after
  unfolding archive_label
  archive_label-IsTidy i b after h (few, unique, once) =
      let (_, _, e) = >>=-eq-ok (get_label i b.labels) (λ _. _) h in
      let f = λ (l : Label). record l { is_archived = true } in
      rw (← ok_inj e) (
        omega (arith, few, length-update i f b.labels),
        update-Tidy i f b.labels (λ l. refl) unique,
        once,
      )

  attach-IsTidy :
      (lead i : ℕ) (b after : Board) → attach lead i b ≡ ok after → IsTidy b → IsTidy after
  unfolding attach
  attach-IsTidy lead i b after h (few, unique, once) =
      let (_, _, h1) = >>=-eq-ok (live_lead lead b.leads) (λ _. _) h in
      let (l, _, h2) = >>=-eq-ok (get_label i b.labels) (λ _. _) h1 in
      let (_, _, e) = >>=-eq-ok (raise_if l.is_archived (conflict label_archived)) (λ _. _) h2 in
      rw (← ok_inj e) (elim (Bool-cases (any (is_link lead i) b.links)) [
        | inl there ↦ rw there (few, unique, once)
        | inr absent ↦ rw absent (
          few,
          unique,
          (λ x y.
              rw (count-append (is_link x y) b.links ((lead, i) ∷ []))
                (elim (Bool-cases (is_link x y (lead, i))) [
                  | inl same ↦
                      let none_yet : count (is_link x y) b.links ≡ 0 =
                        rw
                          (
                            ← (==_iff lead x).0 (ground (arith, same)),
                            ← (==_iff i y).0 (ground (arith, same)),
                          )
                          (count-absent (is_link lead i) b.links absent) in
                      ground (arith, none_yet, same)
                  | inr other ↦ ground (arith, other, once x y)
                ])),
        )
      ])

  detach-IsTidy : (lead i : ℕ) (b : Board) → IsTidy b → IsTidy (detach lead i b)
  unfolding detach
  detach-IsTidy lead i b (few, unique, once) = (
    few,
    unique,
    (λ x y.
        omega (arith, once x y, count-keep-le (is_link x y) (λ z. not (is_link lead i z)) b.links)),
  )

  -- Every request on labels that succeeds keeps at most 100 labels, no two with one name in lower
  -- case, and at most one link of a lead to a label, if it was so before and no two labels share a
  -- key.
  pub perform-IsTidy :
      (q : Request) (b after : Board)
      → perform q b ≡ ok after
      → Distinct label_key b.labels
      → IsTidy b
      → IsTidy after
  unfolding perform
  perform-IsTidy (create id name color) b after h d tidy =
      create_label-IsTidy id name color b after h tidy
  perform-IsTidy (change id name color) b after h d tidy =
      update_label-IsTidy id name color b after h d tidy
  perform-IsTidy (archive id) b after h d tidy = archive_label-IsTidy id b after h tidy
  perform-IsTidy (link lead label) b after h d tidy = attach-IsTidy lead label b after h tidy
  perform-IsTidy (unlink lead label) b after h d tidy =
      rw (← ok_inj h) (detach-IsTidy lead label b tidy)
