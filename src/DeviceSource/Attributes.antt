-- ===== src/DeviceSource/Attributes.antt =====
-- IMFAttributes of PS3EyeActivate (PS3EyeDeviceSource.cpp), which passes every call on to a store of
-- Media Foundation, and what its constructor puts there.
use Prim.Native.String.{String}
use ps3eye_direct_show.Common.{
  ℕ, ◌≡◌, ◌≢◌, refl, sym, ◌∙◌, some-injective, Bool, true, false, Option, none, some, List, [], ◌∷◌,
}

-- The attributes that the constructor sets, and all others.
pub data Key : Type 0 where
  friendly_name source_type symbolic_link : Key
  other_key : ℕ → Key

-- The methods with the arguments that they read. Numbers stand for GUIDs, values, sizes and pointers.
pub data Method : Type 0 where
  get_item get_item_type get_uint32 get_uint64 get_double get_guid : Key → Method
  get_string_length get_allocated_string get_blob_size get_allocated_blob : Key → Method
  get_string get_blob get_unknown : Key → ℕ → Method
  compare_item set_item : Key → ℕ → Method
  compare : ℕ → ℕ → Method
  delete_item : Key → Method
  set_uint32 set_uint64 set_double set_guid set_unknown : Key → ℕ → Method
  set_string : Key → String → Method
  set_blob : Key → ℕ → ℕ → Method
  delete_all_items lock_store unlock_store get_count : Method
  get_item_by_index copy_all_items : ℕ → Method

abbrev pub is_reading : Method → Bool
is_reading (set_item k v) = false
is_reading (delete_item k) = false
is_reading lock_store = false
is_reading unlock_store = false
is_reading delete_all_items = false
is_reading (set_uint32 k v) = false
is_reading (set_uint64 k v) = false
is_reading (set_double k v) = false
is_reading (set_guid k v) = false
is_reading (set_string k v) = false
is_reading (set_blob k v n) = false
is_reading (set_unknown k v) = false
is_reading _ = true

-- An IMFAttributes of Media Foundation, as documented: what a method answers and leaves. `text` is the
-- answer that hands out a string.
pub record Attributes : Type 1 where
  pub Store : Type 0
  pub Reply : Type 0
  pub call : Method → Store → Reply × Store
  pub text : String → Reply
  -- MF_DEVSOURCE_ATTRIBUTE_SOURCE_TYPE_VIDCAP_GUID
  pub vidcap_guid : ℕ
  pub get-set_string :
      (k : Key) (v : String) (s : Store)
      → (call (get_allocated_string k) (call (set_string k v) s).1).0 ≡ text v
  pub get-set_other :
      (k j : Key) (v : String) (s : Store)
      → k ≢ j
      → (call (get_allocated_string k) (call (set_string j v) s).1).0
        ≡ (call (get_allocated_string k) s).0
  pub get-set_guid :
      (k j : Key) (v : ℕ) (s : Store)
      → k ≢ j
      → (call (get_allocated_string k) (call (set_guid j v) s).1).0
        ≡ (call (get_allocated_string k) s).0
  pub reads : (m : Method) (s : Store) → is_reading m ≡ true → (call m s).1 ≡ s

abbrev pub camera_name : String
camera_name = "PS3 Eye Camera (Shared)"

abbrev pub camera_link : String
camera_link = "\\\\?\\USB#VID_1415&PID_2000#PS3EYE_MF"

module _ (a : Attributes) where
  -- The constructor; `created` is what MFCreateAttributes hands out, and none the fault on a null store.
  unfoldable pub new_attributes : (created : Option a.Store) → Option a.Store
  new_attributes none = none
  new_attributes (some s) =
      let s₁ = (a.call (set_string friendly_name camera_name) s).1 in
      let s₂ = (a.call (set_guid source_type a.vidcap_guid) s₁).1 in
      some (a.call (set_string symbolic_link camera_link) s₂).1

  unfoldable pub method : Method → a.Store → a.Reply × a.Store
  method (get_item k) s = a.call (get_item k) s
  method (get_item_type k) s = a.call (get_item_type k) s
  method (compare_item k v) s = a.call (compare_item k v) s
  method (compare t m) s = a.call (compare t m) s
  method (get_uint32 k) s = a.call (get_uint32 k) s
  method (get_uint64 k) s = a.call (get_uint64 k) s
  method (get_double k) s = a.call (get_double k) s
  method (get_guid k) s = a.call (get_guid k) s
  method (get_string_length k) s = a.call (get_string_length k) s
  method (get_string k n) s = a.call (get_string k n) s
  method (get_allocated_string k) s = a.call (get_allocated_string k) s
  method (get_blob_size k) s = a.call (get_blob_size k) s
  method (get_blob k n) s = a.call (get_blob k n) s
  method (get_allocated_blob k) s = a.call (get_allocated_blob k) s
  method (get_unknown k i) s = a.call (get_unknown k i) s
  method (set_item k v) s = a.call (set_item k v) s
  method (delete_item k) s = a.call (delete_item k) s
  method delete_all_items s = a.call delete_all_items s
  method (set_uint32 k v) s = a.call (set_uint32 k v) s
  method (set_uint64 k v) s = a.call (set_uint64 k v) s
  method (set_double k v) s = a.call (set_double k v) s
  method (set_guid k v) s = a.call (set_guid k v) s
  method (set_string k v) s = a.call (set_string k v) s
  method (set_blob k v n) s = a.call (set_blob k v n) s
  method (set_unknown k v) s = a.call (set_unknown k v) s
  method lock_store s = a.call lock_store s
  method unlock_store s = a.call unlock_store s
  method get_count s = a.call get_count s
  method (get_item_by_index n) s = a.call (get_item_by_index n) s
  method (copy_all_items t) s = a.call (copy_all_items t) s

  -- Any calls in a row.
  unfoldable pub methods : List Method → a.Store → a.Store
  unfolding method
  methods [] s = s
  methods (m ∷ ms) s = methods ms (method m s).1

  -- Every method does what the same method of the store does.
  pub method_lem : (m : Method) (s : a.Store) → method m s ≡ a.call m s
  unfolding method
  method_lem (get_item k) s = refl
  method_lem (get_item_type k) s = refl
  method_lem (compare_item k v) s = refl
  method_lem (compare t m) s = refl
  method_lem (get_uint32 k) s = refl
  method_lem (get_uint64 k) s = refl
  method_lem (get_double k) s = refl
  method_lem (get_guid k) s = refl
  method_lem (get_string_length k) s = refl
  method_lem (get_string k n) s = refl
  method_lem (get_allocated_string k) s = refl
  method_lem (get_blob_size k) s = refl
  method_lem (get_blob k n) s = refl
  method_lem (get_allocated_blob k) s = refl
  method_lem (get_unknown k i) s = refl
  method_lem (set_item k v) s = refl
  method_lem (delete_item k) s = refl
  method_lem delete_all_items s = refl
  method_lem (set_uint32 k v) s = refl
  method_lem (set_uint64 k v) s = refl
  method_lem (set_double k v) s = refl
  method_lem (set_guid k v) s = refl
  method_lem (set_string k v) s = refl
  method_lem (set_blob k v n) s = refl
  method_lem (set_unknown k v) s = refl
  method_lem lock_store s = refl
  method_lem unlock_store s = refl
  method_lem get_count s = refl
  method_lem (get_item_by_index n) s = refl
  method_lem (copy_all_items t) s = refl

abbrev pub AreReading : List Method → Type 0
AreReading [] = Unit {0}
AreReading (m ∷ ms) = (is_reading m ≡ true) × AreReading ms

methods_keep :
    (a : Attributes) (ms : List Method) (s : a.Store) → AreReading ms → methods a ms s ≡ s
unfolding methods
methods_keep a [] s r = refl
methods_keep a (m ∷ ms) s (r, more) =
    let kept : (method a m s).1 ≡ s = rw (method_lem a m s) (a.reads m s r) in
    rw kept (methods_keep a ms s more)

-- What a method answers after calls that only read.
method-methods :
    (a : Attributes) (m : Method) (ms : List Method) (s : a.Store)
    → AreReading ms
    → (method a m (methods a ms s)).0 ≡ (a.call m s).0
method-methods a m ms s r = rw (methods_keep a ms s r, method_lem a m s) refl

-- The constructor's store.
name_kept :
    (a : Attributes) (s t : a.Store)
    → new_attributes a (some s) ≡ some t
    → ((a.call (get_allocated_string friendly_name) t).0 ≡ a.text camera_name)
      × ((a.call (get_allocated_string symbolic_link) t).0 ≡ a.text camera_link)
unfolding new_attributes
name_kept a s t e =
    let s₁ = (a.call (set_string friendly_name camera_name) s).1 in
    let s₂ = (a.call (set_guid source_type a.vidcap_guid) s₁).1 in
    rw (sym (some-injective _ _ e)) (
      a.get-set_other friendly_name symbolic_link camera_link s₂ (λ h. cc h)
          ∙ a.get-set_guid friendly_name source_type a.vidcap_guid s₁ (λ h. cc h)
          ∙ a.get-set_string friendly_name camera_name s,
      a.get-set_string symbolic_link camera_link s₂,
    )

-- An activation object whose store could be made hands out the friendly name and the symbolic link of
-- the camera, after any calls that set and delete nothing.
pub method-new_attributes :
    (a : Attributes) (ms : List Method) (s t : a.Store)
    → AreReading ms
    → new_attributes a (some s) ≡ some t
    → ((method a (get_allocated_string friendly_name) (methods a ms t)).0 ≡ a.text camera_name)
      × ((method a (get_allocated_string symbolic_link) (methods a ms t)).0 ≡ a.text camera_link)
method-new_attributes a ms s t r e =
    rw
      (
        method-methods a (get_allocated_string friendly_name) ms t r,
        method-methods a (get_allocated_string symbolic_link) ms t r,
      )
      (name_kept a s t e)
