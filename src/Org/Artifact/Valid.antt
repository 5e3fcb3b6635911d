-- ===== src/Org/Artifact/Valid.antt =====
-- What a validated artifact satisfies.
use digital_employee.Common.{
  String, Bool, true, not, List, [], ◌∷◌, all, All, ◌≡◌, refl, subst, arith,
}
use digital_employee.Common.Dict.{Dict}
use digital_employee.Common.Result.{ok, bind_inv, guard_inv, refuse_inv, ok_inj}
use digital_employee.Common.Text.{is_empty}
use digital_employee.Common.Value.{Value, Fields, Items, member}
use digital_employee.Org.Artifact.{
  authority_scope_of, AuthorityScope, PositionEntry, PermissionsArtifact, require_object,
  require_text, require_items, require_texts, equals_text, tier_of, mode_of, boolean_of,
  escalation_of, validate_position, validate_positions, validate_organization_permissions_artifact,
}

abbrev pub are_texts : List String → Bool
are_texts xs = all (λ s. not (is_empty s)) xs

-- The scopes, the tools and the targets of an entry are texts, none of them empty.
pub record IsValidEntry (entry : PositionEntry) : Type 0 where
  pub read : are_texts entry.read ≡ true
  pub tools_allow : are_texts entry.authority.tools_allow ≡ true
  pub tools_deny : are_texts entry.authority.tools_deny ≡ true
  pub targets : are_texts entry.authority.targets ≡ true

require_text_valid :
    (e : String) (v : Value) (s : String) → require_text e v ≡ ok s → not (is_empty s) ≡ true
unfolding require_text
require_text_valid e (Value.str t) s h =
    let (there, k) = refuse_inv (is_empty t) t e h in
    subst (λ u. not (is_empty u) ≡ true) k (ground (arith, there))
require_text_valid e Value.undefined s h = cc h
require_text_valid e Value.null s h = cc h
require_text_valid e Value.other_num s h = cc h
require_text_valid e (Value.bool b) s h = cc h
require_text_valid e (Value.obj fs) s h = cc h
require_text_valid e (Value.num n) s h = cc h
require_text_valid e (Value.arr items) s h = cc h

require_items_valid :
    (e : String) (items : Items) (xs : List String)
    → require_items e items ≡ ok xs
    → are_texts xs ≡ true
unfolding require_items
require_items_valid e Items.nil xs h =
    subst (λ ys. are_texts ys ≡ true) {x = []} {y = xs} (cc h) refl
require_items_valid e (Items.cons v items) xs h =
    let (s, t, h1) = bind_inv (require_text e v) _ h in
    let (rest, r, h2) = bind_inv (require_items e items) _ h1 in
    subst (λ ys. are_texts ys ≡ true) {x = s ∷ rest} {y = xs} (cc h2)
      (ground (arith, require_text_valid e v s t, require_items_valid e items rest r))

require_texts_valid :
    (e : String) (v : Value) (xs : List String) → require_texts e v ≡ ok xs → are_texts xs ≡ true
unfolding require_texts
require_texts_valid e (Value.arr items) xs h = require_items_valid e items xs h
require_texts_valid e Value.undefined s h = cc h
require_texts_valid e Value.null s h = cc h
require_texts_valid e Value.other_num s h = cc h
require_texts_valid e (Value.bool b) s h = cc h
require_texts_valid e (Value.obj fs) s h = cc h
require_texts_valid e (Value.num n) s h = cc h
require_texts_valid e (Value.str t) s h = cc h

-- The texts of an authority scope.
abbrev HasTexts : AuthorityScope → Type 0
HasTexts scope =
    (are_texts scope.tools_allow ≡ true)
    × (are_texts scope.tools_deny ≡ true)
    × (are_texts scope.targets ≡ true)

authority_scope_of-HasTexts :
    (id : String) (v : Value) (scope : AuthorityScope)
    → authority_scope_of id v ≡ ok scope
    → HasTexts scope
unfolding authority_scope_of
authority_scope_of-HasTexts id v scope h =
    let (authority, e1, h1) = bind_inv (require_object _ v) _ h in
    let (deny, h2) = guard_inv (equals_text "deny" (member "writes" authority)) _ _ h1 in
    let (tools, e3, h3) = bind_inv (require_object _ (member "tools" authority)) _ h2 in
    let (allowed, e4, h4) = bind_inv (require_texts _ (member "allow" tools)) _ h3 in
    let (denied, e5, h5) = bind_inv (require_texts _ (member "deny" tools)) _ h4 in
    let (delegation, e6, h6) = bind_inv (require_object _ (member "delegation" authority)) _ h5 in
    let (may, e7, h7) = bind_inv (boolean_of _ (member "allow" delegation)) _ h6 in
    let (targets, e8, h8) = bind_inv (require_texts _ (member "targets" delegation)) _ h7 in
    let (escalate, e9, h9) = bind_inv (escalation_of _ (member "escalateTo" delegation)) _ h8 in
    subst HasTexts
      {x = record {
        tools_allow = allowed;
        tools_deny = denied;
        delegation_allow = may;
        targets = targets;
        escalate_to = escalate;
      }}
      {y = scope} (ok_inj h9)
      (
        require_texts_valid _ (member "allow" tools) allowed e4,
        require_texts_valid _ (member "deny" tools) denied e5,
        require_texts_valid _ (member "targets" delegation) targets e8,
      )

validate_position-IsValidEntry :
    (id : String) (v : Value) (entry : PositionEntry)
    → validate_position id v ≡ ok entry
    → IsValidEntry entry
unfolding validate_position
validate_position-IsValidEntry id v entry h =
    let (p, e1, h1) = bind_inv (require_object _ v) _ h in
    let (named, h2) = guard_inv (equals_text id (member "position" p)) _ _ h1 in
    let (tier, e3, h3) = bind_inv (tier_of _ (member "tier" p)) _ h2 in
    let (mode, e4, h4) = bind_inv (mode_of _ (member "mode" p)) _ h3 in
    let (context, e5, h5) = bind_inv (require_object _ (member "contextScope" p)) _ h4 in
    let (read, e6, h6) = bind_inv (require_texts _ (member "read" context)) _ h5 in
    let (authority, e7, h7) = bind_inv (authority_scope_of id (member "authorityScope" p)) _ h6 in
    let (allowed, denied, targets) =
      authority_scope_of-HasTexts id (member "authorityScope" p) authority e7 in
    subst IsValidEntry {x = record { tier = tier; mode = mode; read = read; authority = authority }}
      {y = entry} (cc h7)
      (record {
        read = require_texts_valid _ (member "read" context) read e6;
        tools_allow = allowed;
        tools_deny = denied;
        targets = targets;
      })

validate_positions-All :
    (fields : Fields) (positions : Dict PositionEntry)
    → validate_positions fields ≡ ok positions
    → All (λ (p : String × PositionEntry). IsValidEntry p.1) positions
unfolding validate_positions
validate_positions-All Fields.end positions h =
    subst (All (λ (p : String × PositionEntry). IsValidEntry p.1)) {x = []} {y = positions} (cc h)
      tt
validate_positions-All (Fields.field id v fields) positions h =
    let (entry, e, h1) = bind_inv (validate_position id v) _ h in
    let (rest, r, h2) = bind_inv (validate_positions fields) _ h1 in
    subst (All (λ (p : String × PositionEntry). IsValidEntry p.1)) {x = (id, entry) ∷ rest}
      {y = positions} (cc h2)
      (validate_position-IsValidEntry id v entry e, validate_positions-All fields rest r)

pub record IsValidArtifact (a : PermissionsArtifact) : Type 0 where
  pub positions : All (λ (p : String × PositionEntry). IsValidEntry p.1) a.positions
  pub owner : not (is_empty a.owner) ≡ true

-- The scopes, tools and targets of every position of an artifact that was validated are texts, none of
-- them empty, and so is the owner.
pub validate_organization_permissions_artifact-IsValidArtifact :
    (v : Value) (a : PermissionsArtifact)
    → validate_organization_permissions_artifact v ≡ ok a
    → IsValidArtifact a
unfolding validate_organization_permissions_artifact
validate_organization_permissions_artifact-IsValidArtifact v a h =
    let (artifact, e1, h1) = bind_inv (require_object _ v) _ h in
    let (version, h2) =
      guard_inv (equals_text "org-permissions.v1" (member "schemaVersion" artifact)) _ _ h1 in
    let (business, e3, h3) = bind_inv (require_text _ (member "business" artifact)) _ h2 in
    let (owner_id, e4, h4) = bind_inv (require_text _ (member "owner" artifact)) _ h3 in
    let (fields, e5, h5) = bind_inv (require_object _ (member "positions" artifact)) _ h4 in
    let (positions, e6, h6) = bind_inv (validate_positions fields) _ h5 in
    subst IsValidArtifact
      {x = record { business = business; owner = owner_id; positions = positions }} {y = a} (cc h6)
      (record {
        positions = validate_positions-All fields positions e6;
        owner = require_text_valid _ (member "owner" artifact) owner_id e4;
      })
