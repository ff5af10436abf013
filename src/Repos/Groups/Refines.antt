-- ===== src/Repos/Groups/Refines.antt =====
-- The repository of groups refines its specification (src/database/GroupsRepo.cpp).
use free_link_app.Common.{
  ℕ, ℤ, pos, negsuc, ℤ_eq, is_negative, ◌≡◌, refl, sym, ap, ◌∙◌, true, false, Option, none, some,
  List, [], ◌∷◌, ◌==◌, if◌then◌else◌, insert, arith,
}
use free_link_app.Groups.{get_elem?, set_at}
use free_link_app.Repos.Groups.{Group, GroupsRepo, IntLists, save_to_database, get_group, save}
use free_link_app.Repos.Groups.Shelf.{
  IsValid, Shelf, GroupCall, adds, gets, updates, deletes, restarts, Answer, told, specified,
  specified_answers, called, written, edited_group, get-set_self,
}
use free_link_app.Repos.Groups.Fetching.{view_hit, Fetched, get_group-Fetched}
use free_link_app.Repos.Groups.Placing.{placed, IsOwn, view-placed, placed-IsValid}
use free_link_app.Repos.Groups.Represents.{
  Represents, Steps, after_fetching, adds-Steps, gets-Steps,
}
use free_link_app.Repos.Groups.Removing.{used_sign, deletes-Steps, restarts-Steps}

module _ (k : IntLists) where
  saved :
      (p : ℕ) (r : GroupsRepo) (g : Group)
      → get_elem? r.heap p ≡ some g
      → is_negative g.id ≡ false
      → save k p r
        ≡ (record (save_to_database k g g.id r) { mem_map = insert g.id p r.mem_map }, true)
  unfolding save save_to_database
  saved p r g at sign = rw (at, save, sign) refl

  rewritten :
      (f : Group → Group) (p : ℕ) (r : GroupsRepo) (x : Group)
      → get_elem? r.heap p ≡ some x
      → is_negative x.id ≡ false
      → written k f (some p) r ≡ (placed k r p x.id (edited_group f x) r.last_id r.order, true)
  unfolding save_to_database
  rewritten f p r x at sign =
      rw (at, written)
        (saved p (record r { heap = set_at p (edited_group f x) r.heap }) (edited_group f x)
          (get-set_self r.heap (edited_group f x) x p at) sign)

  cached-IsOwn :
      (r : GroupsRepo) (p : ℕ) (x : Group)
      → IsValid k r
      → get_elem? r.heap p ≡ some x
      → IsOwn k r p x.id
  cached-IsOwn r p x v at = record {
    old = x;
    there = at;
    only = λ j q hit same.
        let (y, here, its, synced) = v.cached j q hit in
        let e : p ≡ q = ground arith in
        let one : some x ≡ some y = sym at ∙ (ap (get_elem? r.heap) e ∙ here) in
        let x_is : x ≡ y = cc in ap (λ (g : Group). g.id) x_is ∙ its;
  }

  -- The rest of an update, when the group has been looked for.
  abbrev finished : (Group → Group) → GroupsRepo × Option ℕ → GroupsRepo × Answer
  finished f (r, p) = let (r', done) = written k f p r in (r', told done)

  abbrev put_edited : ℤ → (Group → Group) → Shelf → Option Group → Shelf × Answer
  put_edited id f s none = (s, told false)
  put_edited id f s (some g) = (
    record s { groups = λ j. if id == j then some (edited_group f g) else s.groups j },
    told true,
  )

  specified_updates :
      (id : ℤ) (f : Group → Group) (s : Shelf) (o : Option Group)
      → s.groups id ≡ o
      → specified (updates id f) s ≡ put_edited id f s o
  specified_updates id f s none e = rw (e, specified) refl
  specified_updates id f s (some g) e = rw (e, specified) refl

  finished-Steps :
      (id : ℤ) (f : Group → Group) (r : GroupsRepo) (s : Shelf) (q : GroupsRepo × Option ℕ)
      → Represents k r s
      → Fetched k r id q
      → Steps k (finished f q) (specified (updates id f) s)
  finished-Steps id f r s (r', none) h fe =
      rw (specified_updates id f s none (sym (h.shown id) ∙ fe.missing refl))
        (after_fetching k id r s (r', none) h fe, refl)
  finished-Steps id f r s (r', some p) h fe =
      let hit = fe.found p refl in
      let (x, at, its, synced) = fe.valid.cached id p hit in
      let (sign, above, below) = used_sign k id r' p fe.valid hit in
      let own = cached-IsOwn r' p x fe.valid at in
      let here : s.groups id ≡ some x =
        sym (fe.same id ∙ h.shown id) ∙ (view_hit k r' id p hit ∙ at) in
      rw (specified_updates id f s (some x) here, rewritten f p r' x at (ap is_negative its ∙ sign))
        (
          record {
            valid =
                placed-IsValid k r' p x.id (edited_group f x) r'.last_id r'.order fe.valid own refl
                  (omega arith) (λ n lt. ap (λ i. i == pos n) its ∙ above n lt)
                  (λ n. ap (λ i. i == negsuc n) its ∙ below n);
            shown = λ j.
                view-placed k r' p x.id (edited_group f x) r'.last_id r'.order own j
                ∙ (ap (λ o. if x.id == j then some (edited_group f x) else o)
                      (fe.same j ∙ h.shown j)
                    ∙ ap (λ i. if i == j then some (edited_group f x) else s.groups j) its);
            last = fe.last ∙ h.last;
          },
          refl,
        )

  call-Steps :
      (c : GroupCall) (r : GroupsRepo) (s : Shelf)
      → Represents k r s
      → Steps k (called k c r) (specified c s)
  call-Steps (adds g) r s h = adds-Steps k g r s h
  call-Steps (gets id) r s h = gets-Steps k id r s h
  call-Steps (updates id f) r s h =
      finished-Steps id f r s (get_group k id r) h (get_group-Fetched k r id h.valid)
  call-Steps (deletes id) r s h = deletes-Steps k id r s h
  call-Steps restarts r s h = restarts-Steps k r s h

  -- The answers of a sequence of calls.
  unfoldable pub answers : List GroupCall → GroupsRepo → List Answer
  answers [] r = []
  answers (c ∷ cs) r = (called k c r).1 ∷ answers cs (called k c r).0

  -- From a repository that stands for a map of groups on, whatever groups are added, read, edited and
  -- saved, or deleted, and whenever the program is started again, the repository, with its objects in
  -- memory and its table, answers as the plain map from ids to groups does that counts the ids up.
  pub answers-specified :
      (cs : List GroupCall) (r : GroupsRepo) (s : Shelf)
      → Represents k r s
      → answers cs r ≡ specified_answers cs s
  unfolding answers specified_answers
  answers-specified [] r s h = refl
  answers-specified (c ∷ cs) r s h =
      let (after, same) = call-Steps c r s h in
      ap (λ a. a ∷ answers cs (called k c r).0) same
      ∙ ap (λ l. (specified c s).1 ∷ l)
          (answers-specified cs (called k c r).0 (specified c s).0 after)
