-- ===== src/Events/Choice.antt =====
-- NewProducer: which names of a producer are known.
use Prim.Native.Char.{code}
use Prim.Native.String.{[], ◌∷◌}
use text.Mathlib.TextLemmas.{cons≢nil}
use company_service.Common.{ℕ, ◌≡◌, ◌≢◌, ◌≤◌, ◌↔◌, ◌⊎◌, refl, arith, String, true, nat_eq}
use company_service.Common.Text.{trim_space}
use company_service.Action.Inversion.{is_ok}
use company_service.Json.{Codec, equal_fold, fold_code}
use company_service.Config.{EventsConfig}
use company_service.Events.{
  WriterSettings, Logger, KafkaWriter, lower_code, lowers_to, new_producer, producer_log,
  producer_kafka,
}

-- A small letter of ASCII to which no sign beyond ASCII is folded by only one of the two.
abbrev IsPlain : ℕ → Type 0
IsPlain d = (b'a' ≤ d) × (d ≤ b'z') × (d ≢ b'i') × (d ≢ b's')

abbrev AllPlain : String → Type 0
AllPlain [] = Unit
AllPlain (d ∷ t) = IsPlain (code d) × AllPlain t

lower_code-fold_code :
    (c d : ℕ) → IsPlain d → nat_eq (lower_code c) d ≡ nat_eq (fold_code c) (fold_code d)
unfolding lower_code fold_code
lower_code-fold_code c d (low, high, not_i, not_s) = ground arith

lowers_to-equal_fold : (s t : String) → AllPlain t → lowers_to s t ≡ equal_fold s t
unfolding lowers_to equal_fold
lowers_to-equal_fold [] [] h = refl
lowers_to-equal_fold [] (d ∷ t) h = refl
lowers_to-equal_fold (c ∷ s) [] h = refl
lowers_to-equal_fold (c ∷ s) (d ∷ t) (plain, h) =
    rw (lower_code-fold_code (code c) (code d) plain, lowers_to-equal_fold s t h) refl

lowers_to-empty : (s : String) → (lowers_to s "" ≡ true) ↔ (s ≡ "")
unfolding lowers_to
lowers_to-empty [] = ground arith
lowers_to-empty (c ∷ s) = (λ h. cc, λ h. absurd (cons≢nil h))

-- NewProducer gives a producer exactly if the configured name is empty, "log" or "kafka", spaces at
-- its ends and the case of its letters aside.
pub new_producer-is_ok :
    {M : Type 0} (codec : Codec) (open_writer : WriterSettings → KafkaWriter M)
    (quote : String → String) (cfg : EventsConfig) (logger : Logger M)
    → (is_ok (new_producer codec open_writer quote cfg logger) ≡ true) ↔ (
        (trim_space cfg.producer ≡ "")
        ⊎ ((equal_fold (trim_space cfg.producer) producer_log ≡ true)
            ⊎ (equal_fold (trim_space cfg.producer) producer_kafka ≡ true)))
unfolding new_producer
new_producer-is_ok codec open_writer quote cfg logger =
    let name = trim_space cfg.producer in
    let is_log : lowers_to name "log" ≡ equal_fold name "log" =
      lowers_to-equal_fold name "log" (omega arith) in
    let is_kafka : lowers_to name "kafka" ≡ equal_fold name "kafka" =
      lowers_to-equal_fold name "kafka" (omega arith) in
    ground (arith, lowers_to-empty name, is_log, is_kafka)
