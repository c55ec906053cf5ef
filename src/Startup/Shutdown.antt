-- ===== src/Startup/Shutdown.antt =====
-- main.go and the end of SlackGateway.Start: what a signal does to the running program.
use agentfactory_gateway.Common.{
  sym, subst, ap, String, Bool, true, false, ◌≡◌, refl, ◌⊎◌, inl, inr, Option, none, some, List, [],
  ◌∷◌, ◌++◌, All, All-append, arith, Bool-cases, Option-cases,
}
use agentfactory_gateway.Config.{Config, load, validate, load_env}
use agentfactory_gateway.Startup.{
  Step, stop_gateway, drain, Event, signals, socket_ends, looks, start_goes_on, expires,
  main_goes_on, in_run_context, waiting, draining, finished, MainState, Running, look, end_socket,
  start_on, main_on, expire, happen, happen_all, is_finished, just_started, Machine, run_gateway,
  after_validate, main,
}

-- The socket does not end on its own.
abbrev pub IsOther : Event → Type 0
IsOther socket_ends = ⊥
IsOther _ = Unit

-- No call of Stop, and no wait that ends with a drained gateway.
abbrev pub IsUndrained : Step → Type 0
IsUndrained stop_gateway = ⊥
IsUndrained (drain true) = ⊥
IsUndrained _ = Unit

abbrev pub In : Step → List Step → Type 0
In x [] = ⊥
In x (y ∷ ys) = (y ≡ x) ⊎ In x ys

In-append : (x : Step) (xs ys : List Step) → In x xs ⊎ In x ys → In x (xs ++ ys)
In-append x [] ys (inl h) = absurd h
In-append x [] ys (inr h) = h
In-append x (y ∷ xs) ys (inl (inl e)) = inl e
In-append x (y ∷ xs) ys (inl (inr h)) = inr (In-append x xs ys (inl h))
In-append x (y ∷ xs) ys (inr h) = inr (In-append x xs ys (inr h))

-- Start is in RunContext, whose context is not cancelled.
abbrev IsCaught : Running → Type 0
IsCaught r = (r.start ≡ in_run_context) × (r.stop_ctx_cancelled ≡ false)

-- What comes of it: the same, nothing drained, and main returns only by the ten seconds.
abbrev Comes : Running × List Step → Type 0
Comes (r, steps) =
    IsCaught r × All IsUndrained steps × (is_finished r.main_state ≡ true → In (drain false) steps)

abbrev caught : Bool → MainState → Running
caught ctx m = record {
  ctx_cancelled = ctx;
  stop_ctx_cancelled = false;
  start = in_run_context;
  main_state = m;
}

stays : (ctx : Bool) (m : MainState) → is_finished m ≡ false → Comes (caught ctx m, [])
stays ctx m f = ((refl, refl), tt, λ h. cc)

caught-Comes :
    (e : Event) (ctx : Bool) (m : MainState)
    → IsOther e
    → is_finished m ≡ false
    → Comes (happen e (caught ctx m))
unfolding happen look end_socket start_on main_on expire
caught-Comes signals ctx m o f = stays true m f
caught-Comes socket_ends ctx m o f = absurd o
caught-Comes looks ctx m o f = stays ctx m f
caught-Comes start_goes_on ctx m o f = stays ctx m f
caught-Comes (main_goes_on true) true waiting o f = stays true draining refl
caught-Comes (main_goes_on true) false waiting o f = stays false waiting refl
caught-Comes (main_goes_on false) true waiting o f = stays true draining refl
caught-Comes (main_goes_on false) false waiting o f = stays false waiting refl
caught-Comes (main_goes_on pick) ctx draining o f = stays ctx draining refl
caught-Comes (main_goes_on pick) ctx finished o f = cc
caught-Comes expires ctx waiting o f = stays ctx waiting refl
caught-Comes expires ctx draining o f = ((refl, refl), (tt, (tt, (tt, tt))), λ h. inl refl)
caught-Comes expires ctx finished o f = cc

happen-Comes :
    (e : Event) (r : Running)
    → IsOther e
    → IsCaught r
    → is_finished r.main_state ≡ false
    → Comes (happen e r)
happen-Comes e r o c f =
    let same : caught r.ctx_cancelled r.main_state ≡ r =
      λ i. record r { start = sym c.0 i; stop_ctx_cancelled = sym c.1 i } in
    subst (λ q. Comes (happen e q)) same (caught-Comes e r.ctx_cancelled r.main_state o f)

then-Comes :
    (r r' : Running) (xs ys : List Step)
    → Comes (r, xs)
    → IsCaught r'
    → All IsUndrained ys
    → (is_finished r.main_state ≡ false → is_finished r'.main_state ≡ true → In (drain false) ys)
    → Comes (r', xs ++ ys)
then-Comes r r' xs ys one c all late = (
  c,
  All-append IsUndrained xs ys one.1 all,
  λ h. elim (Bool-cases (is_finished r.main_state)) [
    | inl over ↦ In-append (drain false) xs ys (inl (one.2 over))
    | inr early ↦ In-append (drain false) xs ys (inr (late early h))
  ],
)

happen_all-finished :
    (events : List Event) (r : Running)
    → is_finished r.main_state ≡ true
    → happen_all events r ≡ (r, [])
unfolding happen_all
happen_all-finished [] r f = refl
happen_all-finished (e ∷ events) r f = rw (f, happen_all) refl

happen_all-Comes :
    (events : List Event) (r : Running)
    → All IsOther events
    → IsCaught r
    → is_finished r.main_state ≡ false
    → Comes (happen_all events r)
unfolding happen_all
happen_all-Comes [] r o c f = (c, tt, λ h. cc)
happen_all-Comes (e ∷ events) r o c f =
    let one = happen-Comes e r o.0 c f in
    let r' = (happen e r).0 in
    rw (f, happen_all)
      (elim (Bool-cases (is_finished r'.main_state)) [
        | inl over ↦
            rw (happen_all-finished events r' over)
              (then-Comes r' r' (happen e r).1 [] one one.0 tt (λ early. absurd (ground arith)))
        | inr early ↦
            let more = happen_all-Comes events r' o.1 one.0 early in
            then-Comes r' (happen_all events r').0 (happen e r).1 (happen_all events r').1 one
              more.0 more.1 (λ _. more.2)
      ])

IsUndrained-main :
    (join_path : String → String → String) (c : Config) (answer : Option String) (machine : Machine)
    → All IsUndrained (happen_all machine.events just_started).1
    → All IsUndrained (after_validate join_path c answer machine)
unfolding after_validate run_gateway
IsUndrained-main join_path c (some e) machine h = (tt, tt)
IsUndrained-main join_path c none machine h = elim (Option-cases machine.open_error) [
  | inl fine ↦ rw (fine, after_validate) (tt, (tt, (tt, (tt, (tt, h)))))
  | inr (e, bad) ↦ rw (bad, after_validate) (tt, (tt, tt))
]

-- Where the socket does not end on its own, whatever else happens, signals included, and in whatever
-- order: Stop is not called, and main never waits for a gateway that is drained in time; when main
-- returns after the start of the gateway, the wait of ten seconds has timed out.
pub main-IsUndrained :
    (join_path : String → String → String) (machine : Machine)
    → All IsOther machine.events
    → All IsUndrained (main join_path machine)
      × ((happen_all machine.events just_started).0.main_state ≡ finished
          → In (drain false) (happen_all machine.events just_started).1)
unfolding main
main-IsUndrained join_path machine o =
    let all = happen_all-Comes machine.events just_started o (refl, refl) refl in
    let c = load (load_env machine.file machine.env) in
    (IsUndrained-main join_path c (validate c) machine all.1, λ h. all.2 (ap is_finished h))
