-- ===== src/Store/Recover.antt =====
-- internal/persistence/match_snapshot.go: what is stored of a state is what is read back.
use rct_hub_backend.Base.{
  ◌≡◌, refl, Bool, Option, true, false, some, arith, text_Eq, text_eq_iff, is_empty, nat_Eq, ◌==◌,
  not, Text,
}
use rct_hub_backend.Model.Timer.{Time}
use rct_hub_backend.Model.State.{State}
use rct_hub_backend.Validation.{validate_state}
use rct_hub_backend.Domain.Entities.{ObjectId, nil_object_id}
use rct_hub_backend.Store.Utf8.{is_utf8}
use rct_hub_backend.Store.Documents.{MatchSnapshotDocument}
use rct_hub_backend.Store.Driver.{Codec, IsCodec}
use rct_hub_backend.Store.Snapshot.{
  snapshot_origin_native, SnapshotError, Stored, stored, error, ◌>>=◌, error_if, stored_or,
  snapshot_document, new_match_snapshot_document, decode_state, state_configuration_hash,
}

>>=-eq-stored {ℓ κ} :
    {A : Type ℓ} {B : Type κ} (first : Stored A) (next : A → Stored B) {b : B}
    → (first >>= next) ≡ stored b
    → (a : A) × (first ≡ stored a) × (next a ≡ stored b)
>>=-eq-stored (error e) next h = ground arith
>>=-eq-stored (stored a) next h = (a, refl, h)

error_if-eq-stored :
    (b : Bool) (e : SnapshotError) {u : Unit {0}} → error_if b e ≡ stored u → b ≡ false
error_if-eq-stored b e h = ground arith

stored_or-eq-stored {ℓ} :
    {A : Type ℓ} (o : Option A) (e : SnapshotError) {a : A} → stored_or o e ≡ stored a → o ≡ some a
stored_or-eq-stored o e h = ground arith

stored-injective {ℓ} : {A : Type ℓ} {a b : A} → stored a ≡ stored b → b ≡ a
stored-injective h = ground arith

hash-digest :
    {B : Type 0} (codec : Codec B) (s : State) {hash : Text}
    → IsCodec codec
    → state_configuration_hash codec s ≡ some hash
    → is_empty hash ≡ false
unfolding state_configuration_hash
hash-digest codec s law h = law.digest _ h

decode-lem :
    {B : Type 0} (codec : Codec B) (id : ObjectId) (s : State) (now : Time) (bytes : B)
    (hash : Text) {document : MatchSnapshotDocument B}
    → IsCodec codec
    → (id == nil_object_id) ≡ false
    → (now == 0) ≡ false
    → validate_state s ≡ true
    → is_utf8 s ≡ true
    → codec.state_document s ≡ some bytes
    → state_configuration_hash codec s ≡ some hash
    → document ≡ snapshot_document id s now bytes hash
    → decode_state codec document ≡ stored s
unfolding decode_state
decode-lem codec id s now bytes hash law named later valid clean encoded hashed result =
    let back = law.document s valid clean encoded in
    let full = law.document_bytes s encoded in
    let digest = hash-digest codec s law hashed in
    let same = text_eq_iff hash hash in
    let native = text_eq_iff snapshot_origin_native snapshot_origin_native in
    rw result (ground (arith, back, full, digest, same, native))

-- The document that NewMatchSnapshotDocument makes of a state whose strings are UTF-8 is decoded to
-- the state, with encoders that keep their laws; and ValidateState accepts that state.
pub decode_state-new_match_snapshot_document :
    {B : Type 0} (codec : Codec B) (id : ObjectId) (s : State) (now : Time)
    {document : MatchSnapshotDocument B}
    → IsCodec codec
    → is_utf8 s ≡ true
    → new_match_snapshot_document codec id s now ≡ stored document
    → (decode_state codec document ≡ stored s) × (validate_state s ≡ true)
unfolding new_match_snapshot_document
decode_state-new_match_snapshot_document codec id s now {document} law clean h =
    let (_, h₁, k₁) = >>=-eq-stored (error_if (id == nil_object_id) SnapshotError.failed) _ h in
    let (_, h₂, k₂) = >>=-eq-stored (error_if (now == 0) SnapshotError.failed) _ k₁ in
    let (_, h₃, k₃) = >>=-eq-stored (error_if (not (validate_state s)) SnapshotError.failed) _ k₂ in
    let (bytes, h₄, k₄) =
      >>=-eq-stored (stored_or (codec.state_document s) SnapshotError.failed) _ k₃ in
    let (hash, h₅, k₅) =
      >>=-eq-stored (stored_or (state_configuration_hash codec s) SnapshotError.failed) _ k₄ in
    let valid : validate_state s ≡ true = ground (arith, error_if-eq-stored _ _ h₃) in
    (
      decode-lem codec id s now bytes hash law (error_if-eq-stored _ _ h₁)
          (error_if-eq-stored _ _ h₂) valid clean (stored_or-eq-stored _ _ h₄)
          (stored_or-eq-stored _ _ h₅) (stored-injective k₅),
      valid,
    )
