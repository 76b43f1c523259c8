-- ===== src/Module/Lifetime.antt =====
-- The lifetime of a loaded module (src/module/module_manager.cpp): readers, a writer and the handles.
use Prim.{Unit, tt}
use olproff_fastsbc_hmr.Base.{
  ℕ, zero, suc, ◌≤◌, Bool, true, false, ◌||◌, Option, none, some, List, [], ◌∷◌, ◌==◌, ==_iff,
  ==_refl, lt→==_false, ◌≡◌, refl, sym, ap, ◌∙◌, inl, inr, arith, if◌then◌else◌, Bool-cases,
  Option-cases,
}
use olproff_fastsbc_hmr.Text.{Bytes}
use olproff_fastsbc_hmr.Runtime.{HmrModuleInfo}
use olproff_fastsbc_hmr.Module.{
  LoadedModule, ModuleEvent, Opened, failed, library, ModuleManager, contains, erase, notify,
  subscribe, unsubscribe, dlclose, is_current, is_held, referenced, released, fail, publish,
  load_library, load, acquire, drop_snapshot, release, new_manager, abi_version,
}

-- No handle is listed twice.
abbrev pub AreDistinct : List ℕ → Type 0
AreDistinct [] = Unit
AreDistinct (x ∷ xs) = (contains x xs ≡ false) × AreDistinct xs

contains-erase :
    (h x : ℕ) (xs : List ℕ)
    → AreDistinct xs
    → contains h (erase x xs) ≡ (if x == h then false else contains h xs)
unfolding contains erase
contains-erase h x [] d = ground arith
contains-erase h x (y ∷ xs) d = ground (arith, contains-erase h x xs d.1, d.0)

pub contains-erase_le :
    (h x : ℕ) (xs : List ℕ) → contains h xs ≡ false → contains h (erase x xs) ≡ false
unfolding contains erase
contains-erase_le h x [] d = refl
contains-erase_le h x (y ∷ xs) d = ground (arith, contains-erase_le h x xs)

pub AreDistinct-erase : (x : ℕ) (xs : List ℕ) → AreDistinct xs → AreDistinct (erase x xs)
unfolding erase
AreDistinct-erase x [] d = d
AreDistinct-erase x (y ∷ xs) d = elim (Bool-cases (y == x)) [
  | inl same ↦ rw same d.1
  | inr other ↦ rw other (contains-erase_le y x xs d.0, AreDistinct-erase x xs d.1)
]

or_twice : (a b : Bool) → (a || b) ≡ (a || (a || b))
or_twice a b = ground arith

module _ {F : Type 0} where
  -- What the writer, the readers and the host may do, in any order. A release needs a snapshot.
  pub data Step : ModuleManager F → ModuleManager F → Type 0 where
    loads : (m : ModuleManager F) (path : Bytes) (o : Opened F) → Step m (load path o m).1
    acquires : (m : ModuleManager F) → Step m (acquire m)
    releases :
        (m : ModuleManager F) (l : LoadedModule F)
        → is_held l.handle m.snapshots ≡ true
        → Step m (release l m)
    subscribes : (m : ModuleManager F) (o : ℕ) → Step m (subscribe o m)
    unsubscribes : (m : ModuleManager F) (o : ℕ) → Step m (unsubscribe o m)

  pub data Reach (s : ModuleManager F) : ModuleManager F → Type 0 where
    here : Reach s s
    step : {t u : ModuleManager F} → Reach s t → Step t u → Reach s u

  -- A handle is open exactly while a pointer to its module is left; handles to come are not in use.
  pub record IsCounted (m : ModuleManager F) : Type 0 where
    pub exact : (h : ℕ) → contains h m.opened ≡ referenced h m
    pub distinct : AreDistinct m.opened
    pub fresh : (h : ℕ) → m.next ≤ h → contains h m.opened ≡ false

  is_held-drop :
      (h x : ℕ) (ls : List (LoadedModule F))
      → (x == h) ≡ false
      → is_held h (drop_snapshot x ls) ≡ is_held h ls
  unfolding is_held drop_snapshot
  is_held-drop h x [] d = refl
  is_held-drop h x (l ∷ ls) d = ground (arith, is_held-drop h x ls d)

  -- One pointer to the module of `l` went away, and all else is in order.
  released-IsCounted :
      (l : LoadedModule F) (m : ModuleManager F)
      → AreDistinct m.opened
      → ((h : ℕ) → m.next ≤ h → contains h m.opened ≡ false)
      → ((h : ℕ) → (l.handle == h) ≡ false → contains h m.opened ≡ referenced h m)
      → contains l.handle m.opened ≡ true
      → IsCounted (released (some l) m)
  unfolding released dlclose referenced
  released-IsCounted l m d f e open_ = elim (Bool-cases (referenced l.handle m)) [
    | inl left ↦ rw left (record {
      exact = λ h. elim (Bool-cases (l.handle == h)) [
        | inl same ↦ rw (← (==_iff l.handle h).0 same) (open_ ∙ sym left)
        | inr other ↦ e h other
      ];
      distinct = d;
      fresh = f;
    })
    | inr last ↦ rw last (record {
      exact = λ h. contains-erase h l.handle m.opened d ∙ elim (Bool-cases (l.handle == h)) [
        | inl same ↦ rw (same, ← (==_iff l.handle h).0 same) (sym last)
        | inr other ↦ rw other (e h other)
      ];
      distinct = AreDistinct-erase l.handle m.opened d;
      fresh = λ h n. contains-erase_le h l.handle m.opened (f h n);
    })
  ]

  -- Events change nothing of this.
  notify-IsCounted : (e : ModuleEvent) (m : ModuleManager F) → IsCounted m → IsCounted (notify e m)
  unfolding notify referenced
  notify-IsCounted e m c = record { exact = c.exact; distinct = c.distinct; fresh = c.fresh }

  -- The manager behind a dlopen that gave a library.
  abbrev pub dlopened : ModuleManager F → ModuleManager F
  dlopened m = record m { next = suc m.next; opened = m.next ∷ m.opened }

  fail-IsCounted :
      (path msg : Bytes) (m : ModuleManager F)
      → IsCounted m
      → IsCounted (fail m.next path msg (dlopened m)).1
  unfolding fail dlclose erase contains referenced
  fail-IsCounted path msg m c = notify-IsCounted _ _ (
      rw (==_refl m.next)
        (record { exact = c.exact; distinct = c.distinct; fresh = λ h n. c.fresh h (omega arith) }))

  publish-IsCounted :
      (l : LoadedModule F) (m : ModuleManager F)
      → l.handle ≡ m.next
      → IsCounted m
      → IsCounted (publish l (dlopened m))
  unfolding publish contains referenced is_held
  publish-IsCounted l m e c = elim (Option-cases m.current) [
    | inl first ↦ rw first (record {
      exact = λ h. (rw first at (counted h)) ∙ or_twice (l.handle == h) (is_held h m.snapshots);
      distinct = distinct;
      fresh = fresh;
    })
    | inr (old, here_) ↦ rw here_ (
        released-IsCounted old r distinct fresh
          (λ h other.
            (rw (here_, other) at (counted h)) ∙ or_twice (l.handle == h) (is_held h m.snapshots))
          (ground (arith, c.exact old.handle, ==_refl old.handle)))
  ]
    where
      r : ModuleManager F
      r = record (dlopened m) { current = some l; snapshots = l ∷ m.snapshots }

      distinct : AreDistinct r.opened
      distinct = (c.fresh m.next (omega arith), c.distinct)

      fresh : (h : ℕ) → r.next ≤ h → contains h r.opened ≡ false
      fresh h n = rw (lt→==_false m.next h (omega (arith, n)), c.fresh h (omega (arith, n))) refl

      counted :
          (h : ℕ)
          → contains h r.opened
            ≡ (l.handle == h || (is_current h m.current || is_held h m.snapshots))
      counted h = rw (e, ← c.exact h) refl

  release-IsCounted :
      (l : LoadedModule F) (m : ModuleManager F)
      → is_held l.handle m.snapshots ≡ true
      → IsCounted m
      → IsCounted (release l m)
  unfolding release
  release-IsCounted l m held c =
      released-IsCounted l (record m { snapshots = drop_snapshot l.handle m.snapshots }) c.distinct
        c.fresh
        (λ h other.
          c.exact h
          ∙ ap (λ b. is_current h m.current || b) (sym (is_held-drop h l.handle m.snapshots other)))
        (c.exact l.handle ∙ ground (arith, held))

  load_library-IsCounted :
      (path : Bytes) (f : Option F) (i : Option HmrModuleInfo) (m : ModuleManager F)
      → IsCounted m
      → IsCounted (load_library path m.next f i (dlopened m)).1
  unfolding load_library
  load_library-IsCounted path none i m c = fail-IsCounted path _ m c
  load_library-IsCounted path (some f) none m c = fail-IsCounted path _ m c
  load_library-IsCounted path (some f) (some i) m c =
      elim (Bool-cases (i.abi_version == abi_version)) [
        | inl same ↦ rw same (notify-IsCounted _ _ (publish-IsCounted _ m refl c))
        | inr other ↦ rw other (fail-IsCounted path _ m c)
      ]

  acquire-IsCounted : (m : ModuleManager F) → IsCounted m → IsCounted (acquire m)
  unfolding acquire referenced is_held
  acquire-IsCounted m c = elim (Option-cases m.current) [
    | inl nothing ↦
        rw nothing (record {
          exact = λ h. rw nothing at (c.exact h);
          distinct = c.distinct;
          fresh = c.fresh;
        })
    | inr (l, there) ↦ rw there (record {
      exact = λ h. (rw there at (c.exact h)) ∙ or_twice (l.handle == h) (is_held h m.snapshots);
      distinct = c.distinct;
      fresh = c.fresh;
    })
  ]

  subscribe-IsCounted : (o : ℕ) (m : ModuleManager F) → IsCounted m → IsCounted (subscribe o m)
  unfolding subscribe referenced
  subscribe-IsCounted o m c = elim (Bool-cases (o == 0 || contains o m.observers)) [
    | inl there ↦ rw there c
    | inr new ↦ rw new (record { exact = c.exact; distinct = c.distinct; fresh = c.fresh })
  ]

  Step-IsCounted : {m n : ModuleManager F} → Step m n → IsCounted m → IsCounted n
  unfolding load unsubscribe referenced
  Step-IsCounted (loads m path (failed e)) c = notify-IsCounted _ m c
  Step-IsCounted (loads m path (library f i)) c = load_library-IsCounted path f i m c
  Step-IsCounted (acquires m) c = acquire-IsCounted m c
  Step-IsCounted (releases m l h) c = release-IsCounted l m h c
  Step-IsCounted (subscribes m o) c = subscribe-IsCounted o m c
  Step-IsCounted (unsubscribes m o) c = record {
    exact = c.exact;
    distinct = c.distinct;
    fresh = c.fresh;
  }

  Reach-IsCounted : {s m : ModuleManager F} → IsCounted s → Reach s m → IsCounted m
  Reach-IsCounted c here = c
  Reach-IsCounted c (step r st) = Step-IsCounted st (Reach-IsCounted c r)

  new-IsCounted : IsCounted (new_manager {F = F})
  unfolding contains referenced is_held
  new-IsCounted = record { exact = λ h. refl; distinct = tt; fresh = λ h n. refl }

  -- Whatever loads, acquisitions and releases come in whatever order: a handle is open exactly while
  -- its module is current or a snapshot of it is held, no handle is open twice, and the handles to come
  -- are not open.
  pub reached-IsCounted : {m : ModuleManager F} → Reach new_manager m → IsCounted m
  reached-IsCounted r = Reach-IsCounted (new-IsCounted) r

  -- How many snapshots of that handle are held.
  unfoldable pub held_count : ℕ → List (LoadedModule F) → ℕ
  held_count h [] = 0
  held_count h (l ∷ ls) = let n = held_count h ls in if l.handle == h then suc n else n

  held_count_zero :
      (h : ℕ) (ls : List (LoadedModule F)) → held_count h ls ≡ 0 → is_held h ls ≡ false
  unfolding held_count is_held
  held_count_zero h [] e = refl
  held_count_zero h (l ∷ ls) e = ground (arith, held_count_zero h ls)

  held_count-suc :
      (h n : ℕ) (ls : List (LoadedModule F))
      → held_count h ls ≡ suc n
      → (is_held h ls ≡ true) × (held_count h (drop_snapshot h ls) ≡ n)
  unfolding held_count is_held drop_snapshot
  held_count-suc h n [] e = absurd (omega (arith, e))
  held_count-suc h n (l ∷ ls) e = elim (Bool-cases (l.handle == h)) [
    | inl same ↦ rw same (refl, omega (arith, rw (same, held_count) at e))
    | inr other ↦
        let (held, fewer) = held_count-suc h n ls (rw (other, held_count) at e) in
        rw other (held, rw other fewer)
  ]

  -- The readers of a module let their snapshots go, one after the other.
  unfoldable pub release_times : ℕ → LoadedModule F → ModuleManager F → ModuleManager F
  release_times zero l m = m
  release_times (suc n) l m = release_times n l (release l m)

  release_fields :
      (l : LoadedModule F) (m : ModuleManager F)
      → ((release l m).current ≡ m.current)
        × ((release l m).snapshots ≡ drop_snapshot l.handle m.snapshots)
  unfolding release dlclose
  release_fields l m =
      elim (Bool-cases
        (is_current l.handle m.current || is_held l.handle (drop_snapshot l.handle m.snapshots))) [
          | inl left ↦ rw left (refl, refl)
          | inr last ↦ rw last (refl, refl)
        ]

  drained :
      (n : ℕ) (l : LoadedModule F) (m : ModuleManager F)
      → IsCounted m
      → held_count l.handle m.snapshots ≡ n
      → is_current l.handle m.current ≡ false
      → (contains l.handle (release_times n l m).opened ≡ false)
        × ((release_times n l m).current ≡ m.current)
  unfolding release_times
  drained zero l m c e k = (
    c.exact l.handle ∙ unfold referenced in rw (k, held_count_zero l.handle m.snapshots e) refl,
    refl,
  )
  drained (suc n) l m c e k =
      let (held, fewer) = held_count-suc l.handle n m.snapshots e in
      let (cur, snaps) = release_fields l m in
      let (closed, kept) =
        drained n l (release l m) (release-IsCounted l m held c)
          (ap (held_count l.handle) snaps ∙ fewer) (ap (is_current l.handle) cur ∙ k) in
      (closed, kept ∙ cur)

  -- Once a module is replaced, it is closed when its readers have let all their snapshots go, and the
  -- module that replaced it stays current.
  pub replaced_closes :
      (l : LoadedModule F) {m : ModuleManager F}
      → Reach new_manager m
      → is_current l.handle m.current ≡ false
      → let after = release_times (held_count l.handle m.snapshots) l m in
        (contains l.handle after.opened ≡ false) × (after.current ≡ m.current)
  replaced_closes l {m} r k =
      drained (held_count l.handle m.snapshots) l m (reached-IsCounted r) refl k
