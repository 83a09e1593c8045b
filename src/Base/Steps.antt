-- ===== src/Base/Steps.antt =====
-- The states that a step relation reaches from a state.
pub data Reach {A : Type 0} (Step : A → A → Type 0) (a : A) : A → Type 0 where
  here : Reach Step a a
  next : {b c : A} → Reach Step a b → Step b c → Reach Step a c
