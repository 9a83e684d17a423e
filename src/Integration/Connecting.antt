-- ===== src/Integration/Connecting.antt =====
-- What every Init under integration/ has to do with the context and its clients.
use hwhkit_go.Prelude.{
  suc, String, ◌≡◌, refl, false, Option, none, some, List, [], ◌∷◌, ◌++◌, arith, eq_iff, nat_eq,
  string_eq, length, get_elem?, sym, append-nil, ap, ◌∙◌, ◌==◌,
}
use hwhkit_go.Core.AppContext
use hwhkit_go.Core.AppContext.Laws.{get-insert, get_named-insert_named}
use hwhkit_go.Core.CoreError.{Error}
use hwhkit_go.Integration.World.{World, publish, publish_twice, find, find_named, close, track}

module _ {H C : Type 0} (t key : String) (clients : H → List C) where
  -- A failed Init has released each client that it has opened, and has not changed the context. After
  -- a successful one the same Handle contents are found under the type and under the name, the
  -- clients that are still open are those of the Handle, and what the context has under other types
  -- is as it was. Either way no Close is left pending.
  unfoldable pub Settles : World H C → World H C × Option Error → Type 0
  Settles w (w', some e) =
      (w'.app ≡ w.app)
      × (w'.handles ≡ w.handles)
      × ((cs : List C) × (w'.opened ≡ w.opened ++ cs) × (w'.released ≡ w.released ++ cs))
      × (w'.pending ≡ w.pending)
  Settles w (w', none) =
      (w'.released ≡ w.released)
      × ((h : H) × (find t w' ≡ some h)
          × (find_named t key w' ≡ some h)
          × (w'.opened ≡ w.opened ++ clients h))
      × ((u : String)
          → (t == u) ≡ false
          → AppContext.get w'.app u false ≡ AppContext.get w.app u false)
      × (w'.pending ≡ w.pending)

get_elem?-last : {A : Type 0} (xs : List A) (x : A) → get_elem? (xs ++ x ∷ []) (length xs) ≡ some x
get_elem?-last [] x = refl
get_elem?-last (y ∷ xs) x = get_elem?-last xs x

get_elem?-first :
    {A : Type 0} (xs : List A) (x y : A) → get_elem? ((xs ++ x ∷ []) ++ y ∷ []) (length xs) ≡ some x
get_elem?-first [] x y = refl
get_elem?-first (z ∷ xs) x y = get_elem?-first xs x y

get_elem?-second :
    {A : Type 0} (xs : List A) (x y : A)
    → get_elem? ((xs ++ x ∷ []) ++ y ∷ []) (suc (length xs)) ≡ some y
get_elem?-second [] x y = refl
get_elem?-second (z ∷ xs) x y = get_elem?-second xs x y

module _ {H C : Type 0} (t key : String) (h : H) (w : World H C) where
  pub find-publish : find t (publish t key h w) ≡ some h
  unfolding find publish
  find-publish = ground (
    arith,
    get-insert w.app t t false false (length w.handles) key,
    eq_iff t t,
    get_named-insert_named (AppContext.insert w.app t false (length w.handles)) key key t false
        (record { elem_type = t; address = length w.handles }),
    eq_iff key key,
    get_elem?-last w.handles h,
  )

  pub find_named-publish : find_named t key (publish t key h w) ≡ some h
  unfolding find_named publish
  find_named-publish = ground (
    arith,
    get-insert w.app t t false false (length w.handles) key,
    eq_iff t t,
    get_named-insert_named (AppContext.insert w.app t false (length w.handles)) key key t false
        (record { elem_type = t; address = length w.handles }),
    eq_iff key key,
    get_elem?-last w.handles h,
  )

  pub find-publish_twice : find t (publish_twice t key h w) ≡ some h
  unfolding find publish_twice
  find-publish_twice = ground (
    arith,
    get-insert w.app t t false false (length w.handles) key,
    eq_iff t t,
    get_named-insert_named (AppContext.insert w.app t false (length w.handles)) key key t false
        (record { elem_type = t; address = suc (length w.handles) }),
    eq_iff key key,
    get_elem?-first w.handles h h,
  )

  pub find_named-publish_twice : find_named t key (publish_twice t key h w) ≡ some h
  unfolding find_named publish_twice
  find_named-publish_twice = ground (
    arith,
    get-insert w.app t t false false (length w.handles) key,
    eq_iff t t,
    get_named-insert_named (AppContext.insert w.app t false (length w.handles)) key key t false
        (record { elem_type = t; address = suc (length w.handles) }),
    eq_iff key key,
    get_elem?-second w.handles h h,
  )

module _ {H C : Type 0} (t key : String) (h : H) (w : World H C) (u : String)
    (other : (t == u) ≡ false) where
  pub get-publish : AppContext.get (publish t key h w).app u false ≡ AppContext.get w.app u false
  unfolding publish
  get-publish = ground (
    arith,
    get_named-insert_named (AppContext.insert w.app t false (length w.handles)) key key u false
        (record { elem_type = t; address = length w.handles }),
    get-insert w.app t u false false (length w.handles) key,
  )

  pub get-publish_twice :
      AppContext.get (publish_twice t key h w).app u false ≡ AppContext.get w.app u false
  unfolding publish_twice
  get-publish_twice = ground (
    arith,
    get_named-insert_named (AppContext.insert w.app t false (length w.handles)) key key u false
        (record { elem_type = t; address = suc (length w.handles) }),
    get-insert w.app t u false false (length w.handles) key,
  )

-- The four ways in which an Init ends.
module _ {H C : Type 0} (t key : String) (clients : H → List C) (w : World H C) where
  pub early-Settles : (e : Error) → Settles t key clients w (w, some e)
  unfolding Settles
  early-Settles e = (refl, refl, ([], sym (append-nil w.opened), sym (append-nil w.released)), refl)

  pub closed-Settles : (c : C) (e : Error) → Settles t key clients w (close c (track c w), some e)
  unfolding Settles
  closed-Settles c e = (refl, refl, (c ∷ [], refl, refl), refl)

  pub publish-Settles :
      (h : H) (c : C)
      → clients h ≡ c ∷ []
      → Settles t key clients w (publish t key h (track c w), none)
  unfolding Settles publish
  publish-Settles h c own = (
    refl,
    (
      h,
      find-publish t key h (track c w),
      find_named-publish t key h (track c w),
      ap (λ cs. w.opened ++ cs) (sym own),
    ),
    λ u other. get-publish t key h (track c w) u other,
    refl,
  )

module _ {H C : Type 0} (t key : String) (clients : H → List C) (w : World H C) where
  pub publish_twice-Settles :
      (h : H) (c : C)
      → clients h ≡ c ∷ []
      → Settles t key clients w (publish_twice t key h (track c w), none)
  unfolding Settles publish_twice
  publish_twice-Settles h c own = (
    refl,
    (
      h,
      find-publish_twice t key h (track c w),
      find_named-publish_twice t key h (track c w),
      ap (λ cs. w.opened ++ cs) (sym own),
    ),
    λ u other. get-publish_twice t key h (track c w) u other,
    refl,
  )

  -- The same for clients that have no Close.
  pub publish-alone-Settles :
      (h : H) → clients h ≡ [] → Settles t key clients w (publish t key h w, none)
  unfolding Settles publish
  publish-alone-Settles h own = (
    refl,
    (
      h,
      find-publish t key h w,
      find_named-publish t key h w,
      sym (append-nil w.opened) ∙ ap (λ cs. w.opened ++ cs) (sym own),
    ),
    λ u other. get-publish t key h w u other,
    refl,
  )

  pub publish_twice-alone-Settles :
      (h : H) → clients h ≡ [] → Settles t key clients w (publish_twice t key h w, none)
  unfolding Settles publish_twice
  publish_twice-alone-Settles h own = (
    refl,
    (
      h,
      find-publish_twice t key h w,
      find_named-publish_twice t key h w,
      sym (append-nil w.opened) ∙ ap (λ cs. w.opened ++ cs) (sym own),
    ),
    λ u other. get-publish_twice t key h w u other,
    refl,
  )
