-- ===== src/Integration/World.antt =====
-- What Init, HealthCheck and Shutdown of the integrations work on: the application context, the
-- Handle structs that a provider has made, and the clients that it has opened and released. A
-- client is released when its Close, Disconnect or Drain has been called, or handed to a goroutine of
-- Shutdown; it is pending where that had not returned, or not drained, when Shutdown returned.
use hwhkit_go.Prelude.{
  ap, sym, append-nil, ◌∙◌, ◌≡◌, refl, String, false, Option, none, some, List, [], ◌∷◌, ◌++◌, ◌==◌,
  nat_eq, string_eq, if◌then◌else◌, length, get_elem?, suc,
}
use hwhkit_go.Prelude.Int.{pos}
use hwhkit_go.Core.AppContext
use hwhkit_go.Core.AppContext.{AppContext}
use hwhkit_go.Core.CoreError.{Error, error_text}
use hwhkit_go.Core.Health.{healthy, unhealthy, CheckResult}

-- The address of a Handle is its place in `handles`.
pub record World (H C : Type 0) : Type 0 where
  pub app : AppContext
  pub handles : List H
  pub opened : List C
  pub released : List C
  pub pending : List C

-- What ends the select of a Shutdown: Close has returned, the timer fires, or the context ends.
pub data Wakeup : Type 0 where
  done timed_out cancelled : Wakeup

-- The clients that the wait leaves pending.
abbrev pub left_pending : {C : Type 0} → Wakeup → C → List C
left_pending done c = []
left_pending timed_out c = c ∷ []
left_pending cancelled c = c ∷ []

-- What ends a select as a value, for a probe that may have an error.
abbrev pub ping_result : (String → String) → Option Error → CheckResult
ping_result quote none = record { name = ""; status = healthy; detail = ""; latency = pos 0 }
ping_result quote (some e) = record {
  name = "";
  status = unhealthy;
  detail = error_text quote e;
  latency = pos 0;
}

module _ {H C : Type 0} where
  abbrev pub track : C → World H C → World H C
  track c w = record w { opened = w.opened ++ c ∷ [] }

  abbrev pub close : C → World H C → World H C
  close c w = record w { released = w.released ++ c ∷ [] }

  -- A Close in a goroutine, or a Drain, that has not come to its end.
  abbrev pub let_go : C → World H C → World H C
  let_go c w = record w { released = w.released ++ c ∷ []; pending = w.pending ++ c ∷ [] }

  -- What the end of the wait means for a client whose Close runs in a goroutine.
  abbrev pub close_waiting : Wakeup → C → World H C → World H C
  close_waiting done c w = close c w
  close_waiting timed_out c w = let_go c w
  close_waiting cancelled c w = let_go c w

  -- The world once `cs` are released and `ps` of them pending.
  abbrev pub released_with : List C → List C → World H C → World H C
  released_with cs ps w = record w { released = w.released ++ cs; pending = w.pending ++ ps }

  pub close-released_with : (c : C) (w : World H C) → close c w ≡ released_with (c ∷ []) [] w
  close-released_with c w =
      ap (λ ps. record w { released = w.released ++ c ∷ []; pending = ps })
        (sym (append-nil w.pending))

  pub nothing-released_with : (w : World H C) → w ≡ released_with [] [] w
  nothing-released_with w =
      ap (λ cs. record w { released = cs }) (sym (append-nil w.released))
      ∙ ap (λ ps. record w { released = w.released ++ []; pending = ps })
          (sym (append-nil w.pending))

  pub close_waiting-released_with :
      (x : Wakeup) (c : C) (w : World H C)
      → close_waiting x c w ≡ released_with (c ∷ []) (left_pending x c) w
  close_waiting-released_with done c w = close-released_with c w
  close_waiting-released_with timed_out c w = refl
  close_waiting-released_with cancelled c w = refl

  -- `&Handle{...}`: a new address, and its contents there.
  abbrev pub allocate : H → World H C → World H C
  allocate h w = record w { handles = w.handles ++ h ∷ [] }

  -- appctx.Insert(app, h) and app.InsertNamed(Key, h) with the Handle that was made last.
  unfoldable pub publish : String → String → H → World H C → World H C
  publish t key h w =
      let a = length w.handles in
      let w' = allocate h w in
      record w' {
        app =
            AppContext.insert_named (AppContext.insert w.app t false a) key
              (record { elem_type = t; address = a });
      }

  -- The same with a second Handle of the same contents for InsertNamed.
  unfoldable pub publish_twice : String → String → H → World H C → World H C
  publish_twice t key h w =
      let a = length w.handles in
      let w' = allocate h (allocate h w) in
      record w' {
        app =
            AppContext.insert_named (AppContext.insert w.app t false a) key
              (record { elem_type = t; address = suc a });
      }

  -- appctx.Get[Handle](app), and the Handle at the address.
  unfoldable pub find : String → World H C → Option H
  find t w = elim (AppContext.get w.app t false) [ none ↦ none | some a ↦ get_elem? w.handles a ]

  -- GetNamed(Key) with the assertion to *Handle.
  unfoldable pub find_named : String → String → World H C → Option H
  find_named t key w = elim (AppContext.get_named w.app key) [
    | none ↦ none
    | some v ↦ if v.elem_type == t then get_elem? w.handles v.address else none
  ]
