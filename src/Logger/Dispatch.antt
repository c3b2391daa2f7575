-- ===== src/Logger/Dispatch.antt =====
-- Which handlers a message reaches, after any list of registrations.
use my_sqltutorials.Prelude.{
  ℕ, ◌<◌, ◌≡◌, refl, ap, sym, ◌∙◌, arith, Bool, true, false, List, [], ◌∷◌, ◌++◌, ◌==◌,
  if◌then◌else◌, length, replicate, append_assoc, append_nil, get_or, get_or-set, length-set,
  get_or-replicate,
}
use my_sqltutorials.Logger.{
  Handler, Message, Chains, type_max, log_add_handler, log_msg, process_chain,
}

module _ {S D : Type 0} where
  -- Registrations, with their types, in order.
  abbrev pub add_all : List (ℕ × Handler S D) → Chains S D → Chains S D
  add_all [] chains = chains
  add_all ((type, h) ∷ rs) chains = add_all rs (log_add_handler type h chains).1

  -- The handlers that were registered for a type, in order.
  abbrev pub registered : ℕ → List (ℕ × Handler S D) → List (Handler S D)
  registered type [] = []
  registered type ((t, h) ∷ rs) = if t == type then h ∷ registered type rs else registered type rs

  -- The chain of a type after one registration.
  abbrev extended : ℕ → ℕ × Handler S D → List (Handler S D) → List (Handler S D)
  extended type (t, h) chain = if t == type then chain ++ h ∷ [] else chain

  add-chain :
      (type t : ℕ) (h : Handler S D) (chains : Chains S D)
      → length chains ≡ type_max
      → 0 < type
      → type < type_max
      → get_or (log_add_handler t h chains).1 type [] ≡ extended type (t, h) (get_or chains type [])
  unfolding log_add_handler
  add-chain type t h chains l p q =
      ground (arith, get_or-set chains t type (get_or chains t [] ++ h ∷ []) [])

  add-length :
      (t : ℕ) (h : Handler S D) (chains : Chains S D)
      → length (log_add_handler t h chains).1 ≡ length chains
  unfolding log_add_handler
  add-length t h chains = ground (arith, length-set chains t (get_or chains t [] ++ h ∷ []))

  extended-if :
      (b : Bool) (h : Handler S D) (rest chain : List (Handler S D))
      → (if b then chain ++ h ∷ [] else chain) ++ rest ≡ chain ++ (if b then h ∷ rest else rest)
  extended-if true h rest chain = append_assoc chain (h ∷ []) rest
  extended-if false h rest chain = refl

  chain_of :
      (type : ℕ) (rs : List (ℕ × Handler S D)) (chains : Chains S D)
      → length chains ≡ type_max
      → 0 < type
      → type < type_max
      → get_or (add_all rs chains) type [] ≡ get_or chains type [] ++ registered type rs
  chain_of type [] chains l p q = sym (append_nil (get_or chains type []))
  chain_of type ((t, h) ∷ rs) chains l p q =
      chain_of type rs (log_add_handler t h chains).1 (add-length t h chains ∙ l) p q
      ∙ ap (λ c. c ++ registered type rs) (add-chain type t h chains l p q)
      ∙ extended-if (t == type) h (registered type rs) (get_or chains type [])

  -- A message of a valid type is processed by exactly the handlers that were registered for its
  -- type, in the order of their registration, whatever else was registered (and whatever failed to
  -- register, for an invalid type).
  pub log_msg-registered :
      (rs : List (ℕ × Handler S D)) (msg : Message D) (s : S)
      → 0 < msg.type
      → msg.type < type_max
      → log_msg (add_all rs (replicate type_max [])) msg s
        ≡ process_chain (registered msg.type rs) msg s
  unfolding log_msg
  log_msg-registered rs msg s p q =
      ap (λ c. process_chain c msg s)
        (chain_of msg.type rs (replicate type_max []) refl p q
          ∙ ap (λ c. c ++ registered msg.type rs) (get_or-replicate type_max msg.type []))
