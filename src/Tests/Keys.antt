-- ===== src/Tests/Keys.antt =====
-- Keys, the list of models and attached files at concrete inputs.
use micro_manus_services.Base.{
  ◌≡◌, refl, some, [], keep, text_eq, length, if◌then◌else◌, Text, codes, ◌∷◌, ◌≤◌, none, ◌+◌,
  arith, drop, ℕ,
}
use micro_manus_services.Keys.Probe.{
  Fetch, ProbeResult, probe, candidates, try_candidates, fetch_models,
}
use micro_manus_services.Keys.Store.{ListedKey, list_keys, add_key, upsert_key, hint}
use micro_manus_services.Keys.Crypto.{Cipher, encrypt, decrypt}
use micro_manus_services.Keys.Sealed.{decrypt-encrypt}
use micro_manus_services.Keys.RoundTrip.{add_key-resolve_key}
use micro_manus_services.Llm.Service.{resolve_key, pick_key}
use micro_manus_services.Uploads.Context.{
  context_block, add_files, length-context_block, total_context_cap,
}
use micro_manus_services.Db.{UploadRow, KeyProvider, ok, Result, err, other}
use micro_manus_services.Models.{get_model, claude_opus_4_8, gpt_5_6_sol}
use micro_manus_services.Models.Picker.{list_models, see_keys, is_key_of}
use micro_manus_services.Models.Offers.{via}
use micro_manus_services.Models.Resolution.{list_models-pick_key, key_provider}
use micro_manus_services.Tests.Data.{sample, opus}

-- Alice has a key of the vendor and an OpenRouter key.
list_models-pick_key_example :
    via opus (see_keys (keep (is_key_of 1) sample.api_keys) [])
    ≡ key_provider (pick_key 1 claude_opus_4_8 sample.api_keys)
unfolding list_models get_model text_eq
list_models-pick_key_example =
    list_models-pick_key opus claude_opus_4_8 1 sample
      (see_keys (keep (is_key_of 1) sample.api_keys) []) refl refl

vendor_first :
    key_provider (pick_key 1 claude_opus_4_8 sample.api_keys) ≡ some KeyProvider.anthropic
unfolding pick_key
vendor_first = refl

router_else : key_provider (pick_key 1 gpt_5_6_sol sample.api_keys) ≡ some KeyProvider.openrouter
unfolding pick_key
router_else = refl

-- Anthropic and no other provider takes the key.
abbrev fetch : Fetch
fetch url headers =
    if text_eq url (codes "https://api.anthropic.com/v1/models")
    then ok (record { status = 200; json = ok (some (codes "m" ∷ [])) })
    else ok (record { status = 401; json = ok none })

abbrev secret : Text
secret = codes "sk-ant-0123"

abbrev accepted : ProbeResult
accepted = record {
  provider = KeyProvider.anthropic;
  base_url = codes "https://api.anthropic.com/v1";
  models = codes "m" ∷ [];
}

abbrev sealed : Text → Text
sealed t = 0 ∷ t

abbrev opened : Text → Result Text
opened [] = ok []
opened (c ∷ t) = ok t

add_key-resolve_key_example :
    (url : Text) × ((resolve_key opened 2 claude_opus_4_8
        (add_key fetch sealed 33 2 secret none none sample).1).0
      ≡ ok (record { provider = KeyProvider.anthropic; base_url = url; api_key = secret }))
    × (fetch_models fetch KeyProvider.anthropic url secret ≡ ok (codes "m" ∷ []))
unfolding add_key upsert_key probe candidates try_candidates fetch_models text_eq
add_key-resolve_key_example =
    add_key-resolve_key fetch sealed opened 33 2 secret none none claude_opus_4_8 sample
      (record {
        id = 33;
        provider = KeyProvider.anthropic;
        key_hint = hint secret;
        models = codes "m" ∷ [];
      })
      refl refl refl

-- A cipher whose tag is the nonce, and an encoding that changes nothing.
abbrev aes : Cipher
aes = record {
  seal = λ iv plain. (iv, 1 ∷ plain);
  unseal = λ iv tag enc.
      if text_eq tag iv then ok (drop 1 enc) else err (other none (codes "Unsupported state"));
  base64 = λ bytes. bytes;
  from_base64 = λ t. t;
}

decrypt-encrypt_example : decrypt aes (encrypt aes (3 ∷ []) secret) ≡ ok secret
unfolding text_eq
decrypt-encrypt_example =
    decrypt-encrypt aes (3 ∷ []) secret (record { dotless = refl; back = refl })
      (record { dotless = refl; back = refl }) (record { dotless = refl; back = refl }) refl

abbrev upload : UploadRow
upload = record {
  id = 60;
  user_id = 1;
  thread_id = some 5;
  filename = codes "a.txt";
  text_content = some (codes "abc");
}

abbrev block : Text
block =
    codes
      "<attached_files>\nThe user attached these files — use them as primary context:\n\n--- a.txt ---\nabc\n</attached_files>"

length-context_block_example : length block ≤ total_context_cap + 228
unfolding context_block add_files
length-context_block_example =
    length-context_block 5 (record sample { uploads = upload ∷ [] }) block (ground arith, tt) refl

abbrev shown_key : ℕ → KeyProvider → ListedKey
shown_key id p = record { id = id; provider = p; key_hint = []; models = [] }

-- The oldest key first.
alices_keys :
    list_keys 1 sample
    ≡ (ok (shown_key 31 KeyProvider.anthropic ∷ shown_key 30 KeyProvider.openrouter ∷ []), sample)
unfolding list_keys
alices_keys = refl
