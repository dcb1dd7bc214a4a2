-- ===== src/Watch/Log.antt =====
-- What a watch promises of the states that it reports, whatever they are compared by.
use go_runit.Common.{◌≢◌, List, [], ◌∷◌}

-- Each element differs from the one before it, the first one from `last`.
abbrev pub AllChanges {ℓ} : {A : Type ℓ} → A → List A → Type ℓ
AllChanges last [] = Unit
AllChanges last (w ∷ ws) = (w ≢ last) × AllChanges w ws

abbrev pub final {ℓ} : {A : Type ℓ} → A → List A → A
final last [] = last
final last (w ∷ ws) = final w ws
