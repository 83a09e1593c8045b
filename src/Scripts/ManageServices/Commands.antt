-- ===== src/Scripts/ManageServices/Commands.antt =====
-- How a command ends, and the question before a deletion.
use af_auth.Base.{
  ℕ, String, ◌≡◌, ◌≢◌, ◌↔◌, false, some, List, [], ◌∷◌, arith, inl, inr, Bool-cases, ◌===◌, truthy,
  str_eq→eq,
}
use af_auth.Base.Eff.{Result, ok, Thrown, Eff, World, Result-cases, Lookup-cases}
use af_auth.Env.{Env, Service}
use af_auth.ServiceRegistry.{get_service}
use af_auth.Scripts.ManageServices.{
  Outcome, delete_service_cmd, delete_found, is_failed, finish, fatal, dispatch, main,
}

module _ {S : Type 0} (env : Env S) (to_lower : String → String) where
  -- A deletion that changed the database was asked about, with the service found before, and was
  -- answered "yes" in whatever case.
  pub delete_confirmed :
      (question : Eff S String) (id : String) (w : World S)
      → (question w).1.db ≡ w.db
      → (delete_service_cmd env to_lower question id w).1.db ≢ w.db
      → (service : Service) × (answer : String) × (env.find_service id w.db ≡ ok (some service))
        × ((question w).0 ≡ ok answer)
        × (to_lower answer ≡ "yes")
  unfolding delete_service_cmd delete_found get_service
  delete_confirmed question id w quiet changed = elim (Lookup-cases (env.find_service id w.db)) [
    | inr (inl f) ↦ absurd (changed (ground arith))
    | inr (inr (x, f)) ↦ absurd (changed (ground arith))
    | inl (s, f) ↦ elim (Result-cases (question w).0) [
      | inr (x, e) ↦ absurd (changed (ground arith))
      | inl (a, e) ↦ elim (Bool-cases (to_lower a === "yes")) [
        | inr other ↦ absurd (changed (ground arith))
        | inl agreed ↦ (s, a, f, e, str_eq→eq (to_lower a) "yes" agreed)
      ]
    ]
  ]

  abbrev IsExit : Result (Outcome × ℕ) → Type 0
  IsExit r = (o : Outcome) (n : ℕ) → r ≡ ok (o, n) → (n ≡ 0) ↔ (is_failed o ≡ false)

  finish-IsExit :
      (disconnect : Eff S (Unit {0})) (o : Outcome) (w : World S)
      → IsExit (finish env to_lower disconnect o w).0
  unfolding finish
  finish-IsExit disconnect o w p n h = elim (Bool-cases (is_failed o)) [
    | inl bad ↦ ((λ z. absurd (ground arith)), λ good. absurd (ground arith))
    | inr good ↦ elim (Result-cases (disconnect w).0) [
      | inl (u, e) ↦ ((λ z. ground arith), λ z. ground arith)
      | inr (x, e) ↦ absurd (ground arith)
    ]
  ]

  fatal-IsExit :
      (disconnect : Eff S (Unit {0})) (x : Thrown) (w : World S)
      → IsExit (fatal env to_lower disconnect x w).0
  fatal-IsExit disconnect x w p n h = elim (Result-cases (disconnect w).0) [
    | inl (u, e) ↦ ((λ z. absurd (ground arith)), λ good. absurd (ground arith))
    | inr (y, e) ↦ absurd (ground arith)
  ]

  -- A run of the program that ends has the exit code 0 exactly when the command did not fail.
  pub main-exit :
      (connect disconnect : Eff S (Unit {0})) (question : Eff S String) (args : List String)
      (w : World S) (o : Outcome) (n : ℕ)
      → (main env to_lower connect disconnect question args w).0 ≡ ok (o, n)
      → (n ≡ 0) ↔ (is_failed o ≡ false)
  unfolding main
  main-exit connect disconnect question [] w o n h = ((λ z. ground arith), λ z. ground arith)
  main-exit connect disconnect question (command ∷ args) w o n h =
      elim (Bool-cases (truthy (some command))) [
        | inr empty ↦ ((λ z. ground arith), λ z. ground arith)
        | inl given ↦ elim (Result-cases (connect w).0) [
          | inr (x, e) ↦ fatal-IsExit disconnect x (connect w).1 o n (ground arith)
          | inl (u, e) ↦
              let r = dispatch env to_lower question command args (connect w).1 in
              elim (Result-cases r.0) [
                | inr (x, f) ↦ fatal-IsExit disconnect x r.1 o n (ground arith)
                | inl (q, f) ↦ elim (Result-cases (finish env to_lower disconnect q r.1).0) [
                  | inl ((p', n'), g) ↦ finish-IsExit disconnect q r.1 o n (ground arith)
                  | inr (x, g) ↦
                      fatal-IsExit disconnect x (finish env to_lower disconnect q r.1).1 o n
                        (ground arith)
                ]
              ]
        ]
      ]
