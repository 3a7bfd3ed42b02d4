-- ===== src/Apply/WellFormed/Start.antt =====
-- A validated model is a well-formed snapshot.
use agentue.Prelude.{
  String, ◌≡◌, ◌∙◌, refl, true, Option, none, some, List, [], ◌∷◌, ap, map, All, All-map,
}
use agentue.Json.{Value, str, arr, obj, Items, nil, cons, Fields, get, to_list, or_null}
use agentue.Result.{ok, >>=-eq-ok}
use agentue.Model.{
  Block, id_of, is_reference, UiModel, parse_version, parse_biz, parse_meta, parse_blocks,
  parse_ui_model, check_blocks, protocol_version,
}
use agentue.Model.Unique.{AreParsed, parse_items-AreParsed, check_blocks-Checked}
use agentue.Apply.Blocks.Laws.{ids}
use agentue.Apply.WellFormed.{AllowsReferences, IsBlock, IsWellFormed, stored_items}

AreParsed-blocks :
    (allowed : Type 0) (vs : Items) (bs : List Block)
    → AreParsed vs bs
    → All (λ b. is_reference b ≡ true → allowed) bs
    → All (IsBlock allowed) (to_list vs)
AreParsed-blocks allowed nil bs p a = tt
AreParsed-blocks allowed (cons (obj fs) vs) (b ∷ bs) ((named, name, ref), ps) (a, as') = (
  (name, λ r. let (valid, kind) = ref r in (valid, a kind)),
  AreParsed-blocks allowed vs bs ps as',
)
AreParsed-blocks allowed (cons v vs) [] p a = absurd p
AreParsed-blocks allowed (cons v vs) (b ∷ bs) p a = absurd p.0

AreParsed-ids :
    (vs : Items) (bs : List Block) → AreParsed vs bs → ids vs ≡ map (λ b. str (id_of b)) bs
AreParsed-ids nil [] p = refl
AreParsed-ids nil (b ∷ bs) p = absurd p
AreParsed-ids (cons (obj fs) vs) (b ∷ bs) ((named, name, ref), ps) =
    cc (ap or_null named, AreParsed-ids vs bs ps)
AreParsed-ids (cons v vs) [] p = absurd p
AreParsed-ids (cons v vs) (b ∷ bs) p = absurd p.0

parse_blocks-inv :
    (o : Option Value) (bs : List Block)
    → parse_blocks o ≡ ok bs
    → (vs : Items) × (stored_items o ≡ some vs) × AreParsed vs bs
unfolding parse_blocks
parse_blocks-inv none [] h = (nil, refl, tt)
parse_blocks-inv none (b ∷ bs) h = cc
parse_blocks-inv (some (arr vs)) bs h = (vs, refl, parse_items-AreParsed vs bs h)
parse_blocks-inv (some v) bs h = cc

-- What the validation of a model goes through.
record Validated (fs : Fields) : Type 0 where
  version : String
  read_version : parse_version (get "version" fs) ≡ ok version
  blocks : List Block
  read_blocks : parse_blocks (get "blocks" fs) ≡ ok blocks
  checked : check_blocks version [] blocks ≡ ok tt

parse_ui_model-Validated : (fs : Fields) (m : UiModel) → parse_ui_model fs ≡ ok m → Validated fs
unfolding parse_ui_model
parse_ui_model-Validated fs m h =
    let (version, v, h₁) = >>=-eq-ok (parse_version (get "version" fs)) _ h in
    let (biz, b, h₂) = >>=-eq-ok (parse_biz (get "biz" fs)) _ h₁ in
    let (meta, t, h₃) = >>=-eq-ok (parse_meta (get "meta" fs)) _ h₂ in
    let (bs, read, h₄) = >>=-eq-ok (parse_blocks (get "blocks" fs)) _ h₃ in
    let (u, checked, h₅) = >>=-eq-ok (check_blocks version [] bs) _ h₄ in
    record {
      version = version;
      read_version = v;
      blocks = bs;
      read_blocks = read;
      checked = checked;
    }

-- A model that passes validation is a well-formed snapshot.
pub parse_ui_model-IsWellFormed :
    (fs : Fields) (m : UiModel) → parse_ui_model fs ≡ ok m → IsWellFormed fs
parse_ui_model-IsWellFormed fs m h =
    let p = parse_ui_model-Validated fs m h in
    let c = check_blocks-Checked p.version [] p.blocks p.checked in
    let (vs, stored, parsed) = parse_blocks-inv (get "blocks" fs) p.blocks p.read_blocks in
    let allow =
      λ (b : Block) (v : is_reference b ≡ true → p.version ≡ protocol_version)
          (r : is_reference b ≡ true).
        p.read_version ∙ ap (λ (t : String). ok t) (v r) in
    record {
      items = vs;
      stored = stored;
      good = record {
        blocks =
            AreParsed-blocks (AllowsReferences fs) vs p.blocks parsed
              (All-map _ _ allow p.blocks c.versions);
        distinct = rw (AreParsed-ids vs p.blocks parsed) c.distinct;
      };
    }
