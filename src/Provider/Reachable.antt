-- ===== src/Provider/Reachable.antt =====
-- Every sequence of the operations of store.go, failures included, keeps the tables well formed.
use shimiaocheng_llm.Prelude.{ℕ, List, [], ◌∷◌, Option, Text}
use shimiaocheng_llm.GoTime.{Time}
use shimiaocheng_llm.Auth.{User}
use shimiaocheng_llm.Router.{RoutingRule}
use shimiaocheng_llm.Provider.{Tables, Codec, Steps}
use shimiaocheng_llm.Provider.Create.{NewProvider, create_provider}
use shimiaocheng_llm.Provider.Update.{ProviderUpdates, update_provider}
use shimiaocheng_llm.Provider.Delete.{delete_provider}
use shimiaocheng_llm.Provider.Rules.{
  RuleUpdates, create_mapping, delete_mapping, create_routing_rule, update_routing_rule,
  delete_routing_rule,
}
use shimiaocheng_llm.Provider.Invariant.{IsWellFormed}
use shimiaocheng_llm.Provider.Preservation.{
  create-IsWellFormed, update-IsWellFormed, delete-IsWellFormed,
}
use shimiaocheng_llm.Provider.RulePreservation.{
  create_mapping-IsWellFormed, delete_mapping-IsWellFormed, create_routing_rule-IsWellFormed,
  update_routing_rule-IsWellFormed, delete_routing_rule-IsWellFormed,
}

-- The operations with their arguments.
pub data Operation : Type 0 where
  create : (kek : Text) → Option Text → NewProvider → Operation
  update : (kek : Text) → Option Text → (printed slug : Text) → ProviderUpdates → Operation
  delete : Text → List User → Operation
  map_model : (external provider model : Text) → Operation
  unmap : ℕ → Operation
  add_rule : RoutingRule → Operation
  change_rule : (printed : Text) → ℕ → RuleUpdates → Operation
  remove_rule : ℕ → Operation

module _ (c : Codec) where
  -- The tables after an operation, whatever it answers.
  unfoldable pub apply : Operation → Steps → Time → Tables → Tables
  apply (create kek r n) s now t = (create_provider c s now n t kek r).0
  apply (update kek r printed slug u) s now t = (update_provider c s now printed slug u t kek r).0
  apply (delete slug users) s now t = (delete_provider c s now slug users t).0
  apply (map_model e p m) s now t = (create_mapping c s now e p m t).0
  apply (unmap id) s now t = (delete_mapping c s now id t).0
  apply (add_rule r) s now t = (create_routing_rule c s now r t).0
  apply (change_rule printed id u) s now t = (update_routing_rule c s now printed id u t).0
  apply (remove_rule id) s now t = (delete_routing_rule c s now id t).0

  unfoldable pub run : List (Operation × Steps × Time) → Tables → Tables
  unfolding apply
  run [] t = t
  run ((o, s, now) ∷ os) t = run os (apply o s now t)

  pub apply-IsWellFormed :
      (o : Operation) (s : Steps) (now : Time) (t : Tables)
      → IsWellFormed t
      → IsWellFormed (apply o s now t)
  unfolding apply
  apply-IsWellFormed (create kek r n) s now t w = create-IsWellFormed c s now t w kek r n
  apply-IsWellFormed (update kek r printed slug u) s now t w =
      update-IsWellFormed c s now t w kek r printed slug u
  apply-IsWellFormed (delete slug users) s now t w = delete-IsWellFormed c s now t w slug users
  apply-IsWellFormed (map_model e p m) s now t w = create_mapping-IsWellFormed c s now t w e p m
  apply-IsWellFormed (unmap id) s now t w = delete_mapping-IsWellFormed c s now t w id
  apply-IsWellFormed (add_rule r) s now t w = create_routing_rule-IsWellFormed c s now t w r
  apply-IsWellFormed (change_rule printed id u) s now t w =
      update_routing_rule-IsWellFormed c s now t w printed id u
  apply-IsWellFormed (remove_rule id) s now t w = delete_routing_rule-IsWellFormed c s now t w id

  -- From tables that are well formed, every sequence of operations, each with any of its statements
  -- failing, leads to tables that are: slugs are distinct, at most one provider is the default, a pair
  -- of external model and provider is mapped once and to a provider that exists, and ids ascend.
  pub run-IsWellFormed :
      (os : List (Operation × Steps × Time)) (t : Tables) → IsWellFormed t → IsWellFormed (run os t)
  unfolding run
  run-IsWellFormed [] t w = w
  run-IsWellFormed ((o, s, now) ∷ os) t w =
      run-IsWellFormed os (apply o s now t) (apply-IsWellFormed o s now t w)
