-- ===== src/ListModel/Gobject.antt =====
-- The registration of the list model with GObject, and its end: model_gslist_get_type,
-- model_gslist_class_init, model_gslist_init and model_gslist_finalize of pingu/model_gslist.c.
use misc_uni_stuff.Base.{
  ℕ, zero, suc, ◌≡◌, ◌≢◌, refl, ap, ◌∙◌, arith, List, [], ◌∷◌, ◌++◌, false, not, ◌==◌,
  if◌then◌else◌, replicate,
}
use misc_uni_stuff.Glib.{Slist}
use misc_uni_stuff.ListModel.{ModelGslist}
use misc_uni_stuff.ListModel.Interface.{GtkTreeModelIface, model_gslist_tree_model_init}

-- The class of an object: how it ends. The parent's finalize is what a function does to an object.
pub record ModelGslistClass : Type 0 where
  pub finalize : ModelGslist → ModelGslist

-- The rows are not freed.
pub model_gslist_finalize : (ModelGslist → ModelGslist) → ModelGslist → ModelGslist
model_gslist_finalize parent_finalize object = parent_finalize object

pub model_gslist_class_init : ModelGslistClass → ModelGslistClass → ModelGslistClass
unfolding model_gslist_finalize
model_gslist_class_init parent_class klass = record {
  finalize = model_gslist_finalize parent_class.finalize;
}

-- What a new object's stamp is: `random` is what g_random_int drew.
pub model_gslist_init : ℕ → ModelGslist → ModelGslist
model_gslist_init random m = record m { stamp = random }

-- The callbacks of a type: the first argument of `class_init` is the parent's class.
pub record GTypeInfo : Type 0 where
  pub class_init : ModelGslistClass → ModelGslistClass → ModelGslistClass
  pub instance_init : ℕ → ModelGslist → ModelGslist

abbrev pub model_gslist_info : GTypeInfo
model_gslist_info = record {
  class_init = model_gslist_class_init;
  instance_init = model_gslist_init;
}

-- The type system: the types that were registered, and those that got the interface of a tree model.
pub record Gobject : Type 1 where
  pub Types : Type 0
  pub registered : Types → List (ℕ × GTypeInfo)
  pub tree_models : Types → List (ℕ × GtkTreeModelIface)
  pub g_type_register_static : Types → GTypeInfo → Types × ℕ
  pub g_type_add_interface_static : Types → ℕ → GtkTreeModelIface → Types
  pub register_nonzero : (t : Types) (i : GTypeInfo) → (g_type_register_static t i).1 ≢ 0
  pub registered_new :
      (t : Types) (i : GTypeInfo)
      → registered (g_type_register_static t i).0
        ≡ registered t ++ ((g_type_register_static t i).1, i) ∷ []
  pub registered_same :
      (t : Types) (n : ℕ) (f : GtkTreeModelIface)
      → registered (g_type_add_interface_static t n f) ≡ registered t
  pub tree_models_same :
      (t : Types) (i : GTypeInfo) → tree_models (g_type_register_static t i).0 ≡ tree_models t
  pub tree_models_new :
      (t : Types) (n : ℕ) (f : GtkTreeModelIface)
      → tree_models (g_type_add_interface_static t n f) ≡ tree_models t ++ (n, f) ∷ []

-- The static variable of model_gslist_get_type with the type system.
pub record Registry (T : Type 0) : Type 0 where
  pub model_gslist_type : ℕ
  pub types : T

module _ ⦃o : Gobject⦄ ⦃g : Slist⦄ where
  pub model_gslist_get_type : Registry o.Types → Registry o.Types × ℕ
  model_gslist_get_type r =
      let made = o.g_type_register_static r.types model_gslist_info in
      if not (r.model_gslist_type == 0) then (r, r.model_gslist_type) else (
        record {
          model_gslist_type = made.1;
          types = o.g_type_add_interface_static made.0 made.1 model_gslist_tree_model_init;
        },
        made.1,
      )

  -- So many calls, with what they return.
  abbrev pub get_type_calls : ℕ → Registry o.Types → Registry o.Types × List ℕ
  get_type_calls zero r = (r, [])
  get_type_calls (suc n) r =
      let (r', type) = model_gslist_get_type r in
      let rest = get_type_calls n r' in (rest.0, type ∷ rest.1)

  get_type_known :
      (r : Registry o.Types)
      → (r.model_gslist_type == 0) ≡ false
      → model_gslist_get_type r ≡ (r, r.model_gslist_type)
  unfolding model_gslist_get_type
  get_type_known r e = ground (arith, e)

  abbrev made : Registry o.Types → Registry o.Types
  made r =
      let new = o.g_type_register_static r.types model_gslist_info in
      record {
        model_gslist_type = new.1;
        types = o.g_type_add_interface_static new.0 new.1 model_gslist_tree_model_init;
      }

  get_type-made :
      (r : Registry o.Types)
      → r.model_gslist_type ≡ 0
      → model_gslist_get_type r ≡ (made r, (made r).model_gslist_type)
  unfolding model_gslist_get_type
  get_type-made r e = ground (arith, e)

  later_calls :
      (n : ℕ) (r : Registry o.Types)
      → (r.model_gslist_type == 0) ≡ false
      → get_type_calls n r ≡ (r, replicate n r.model_gslist_type)
  later_calls zero r e = refl
  later_calls (suc n) r e =
      ap (λ p. ((get_type_calls n p.0).0, p.1 ∷ (get_type_calls n p.0).1)) (get_type_known r e)
      ∙ ap (λ q. (q.0, r.model_gslist_type ∷ q.1)) (later_calls n r e)

  -- However often the type is asked for, from a start without it, one type is registered, with the
  -- callbacks of the list model, it gets the interface of the list model once, and every call returns
  -- this type.
  pub get_type_calls_once :
      (n : ℕ) (r : Registry o.Types)
      → r.model_gslist_type ≡ 0
      → (type : ℕ) × (o.registered (get_type_calls (suc n) r).0.types
          ≡ o.registered r.types ++ (type, model_gslist_info) ∷ [])
        × (o.tree_models (get_type_calls (suc n) r).0.types
            ≡ o.tree_models r.types ++ (type, model_gslist_tree_model_init) ∷ [])
        × ((get_type_calls (suc n) r).1 ≡ replicate (suc n) type)
  get_type_calls_once n r e =
      let new = o.g_type_register_static r.types model_gslist_info in
      let nonzero = o.register_nonzero r.types model_gslist_info in
      let calls : get_type_calls (suc n) r ≡ (made r, replicate (suc n) new.1) =
        ap (λ p. ((get_type_calls n p.0).0, p.1 ∷ (get_type_calls n p.0).1)) (get_type-made r e)
        ∙ ap (λ q. (q.0, new.1 ∷ q.1)) (later_calls n (made r) (ground (arith, nonzero))) in
      (
        new.1,
        ap (λ q. o.registered q.0.types) calls
            ∙ o.registered_same new.0 new.1 model_gslist_tree_model_init
            ∙ o.registered_new r.types model_gslist_info,
        ap (λ q. o.tree_models q.0.types) calls
            ∙ o.tree_models_new new.0 new.1 model_gslist_tree_model_init
            ∙ ap (λ l. l ++ (new.1, model_gslist_tree_model_init) ∷ [])
                (o.tree_models_same r.types model_gslist_info),
        ap (λ q. q.1) calls,
      )
