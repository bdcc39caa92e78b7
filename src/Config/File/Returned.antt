-- ===== src/Config/File/Returned.antt =====
-- A save that returned has replaced the file.
use limit_halo.Prelude.{ℕ, Option, some, List, ◌≡◌, refl}
use limit_halo.Prelude.Result.{Result, ok, err, ◌>>◌}
use limit_halo.Json.{Value}
use limit_halo.Config.{AppConfig}
use limit_halo.Config.Schema.{Platform}
use limit_halo.Config.File.{
  ConfigStore, Revision, Writing, Outcome, save, save_payload, payload_of, first_check,
  temporary_file, second_check, replace_file, finish, revision,
}

abbrev pub HasReplaced : Outcome (Unit {0}) → Type 0
HasReplaced o = o.result ≡ ok tt → (bytes : List ℕ) × (o.replaced ≡ some bytes)

finish_replaced :
    (b : List ℕ) (r : Result (Option Revision)) (s : ConfigStore) → HasReplaced (finish b r s)
finish_replaced b (err e) s h = (b, refl)
finish_replaced b (ok r) s h = (b, refl)

module _ (p : Platform) (read_json : List ℕ → Option Value) where
  file_replaced :
      (b : List ℕ) (w : Writing) (r : Result (Unit {0})) (s : ConfigStore)
      → HasReplaced (replace_file p read_json b w r s)
  file_replaced b w (err e) s h = absurd (cc)
  file_replaced b w (ok _) s h = finish_replaced b (revision w.last) s h

  second_replaced :
      (b : List ℕ) (w : Writing) (x : Result (Unit {0}) × ConfigStore)
      → HasReplaced (second_check p read_json b w x)
  second_replaced b w (err e, s) h = absurd (cc)
  second_replaced b w (ok _, s) h = file_replaced b w w.replaced s h

  temporary_replaced :
      (b : List ℕ) (w : Writing) (r : Result (Unit {0})) (s : ConfigStore)
      → HasReplaced (temporary_file p read_json b w r s)
  temporary_replaced b w (err e) s h = absurd (cc)
  temporary_replaced b w (ok _) s h = second_replaced b w _ h

  first_replaced :
      (b : List ℕ) (w : Writing) (x : Result (Unit {0}) × ConfigStore)
      → HasReplaced (first_check p read_json b w x)
  first_replaced b w (err e, s) h = absurd (cc)
  first_replaced b w (ok _, s) h = temporary_replaced b w (w.prepare >> w.written) s h

  payload_replaced :
      (o : Result (List ℕ)) (w : Writing) (s : ConfigStore)
      → HasReplaced (save_payload p read_json o w s)
  payload_replaced (err e) w s h = absurd (cc)
  payload_replaced (ok b) w s h = first_replaced b w _ h

  pub save_replaced :
      (c : AppConfig) (w : Writing) (s : ConfigStore) → HasReplaced (save p read_json c w s)
  unfolding save
  save_replaced c w s h = payload_replaced (payload_of p c) w s h
