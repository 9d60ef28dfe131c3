-- ===== src/CaseDetail/Register.antt =====
-- The assets and the evidence register of a case.
use socblitz.Common.{
  String, Bool, not, ◌||◌, Option, none, some, List, [], ◌∷◌, truthy, trim, or_null, found_is,
  if◌then◌else◌,
}
use socblitz.Common.Json.{Fields, str, obj, end, field, nullable}
use socblitz.Api.{
  cases, create_case_asset, update_case_asset, delete_case_asset, create_case_evidence,
  update_case_evidence, delete_case_evidence,
}
use socblitz.Ui.{Effect, send, invalidate}

pub record AssetForm : Type 0 where
  pub name : String
  pub asset_type : String
  pub ip_address : String
  pub description : String
  pub compromise_status : String

unfoldable pub empty_asset : AssetForm
empty_asset = record {
  name = "";
  asset_type = "workstation";
  ip_address = "";
  description = "";
  compromise_status = "unknown";
}

pub record EvidenceForm : Type 0 where
  pub filename : String
  pub hash_sha256 : String
  pub description : String
  pub custody_notes : String

unfoldable pub empty_evidence : EvidenceForm
empty_evidence = record { filename = ""; hash_sha256 = ""; description = ""; custody_notes = "" }

-- What the handlers read of a row of the register; an absent text is "".
pub record Evidence : Type 0 where
  pub id : String
  pub filename : String
  pub description : String
  pub hash_sha256 : String
  pub custody_notes : String

pub record Register : Type 0 where
  pub asset_form : AssetForm
  pub evidence_form : EvidenceForm
  pub editing_evidence_id : Option String
  pub editing_evidence_draft : EvidenceForm

unfoldable pub opened : Register
unfolding empty_asset empty_evidence
opened = record {
  asset_form = empty_asset;
  evidence_form = empty_evidence;
  editing_evidence_id = none;
  editing_evidence_draft = empty_evidence;
}

pub data Event : Type 0 where
  change_asset : AssetForm → Event
  click_add_asset : (is_pending : Bool) → Event
  pick_compromise : (asset_id status : String) → Event
  delete_asset : (asset_id : String) → Event
  change_evidence : EvidenceForm → Event
  click_add_evidence : (is_pending : Bool) → Event
  edit : Evidence → Event
  change_draft : EvidenceForm → Event
  cancel_edit : Event
  save_edit : Evidence → Event
  delete_evidence : (evidence_id : String) → Event
  -- answers of the server
  asset_created : Event
  asset_updated : Event
  asset_deleted : Event
  evidence_created : Event
  evidence_updated : Event
  evidence_deleted : Event

-- `{ ...assetForm, ip_address: assetForm.ip_address || null }`
asset_body : AssetForm → Fields
asset_body f = field "name" (str f.name) (
    field "asset_type" (str f.asset_type) (
      field "ip_address" (nullable (or_null f.ip_address)) (
        field "description" (str f.description)
          (field "compromise_status" (str f.compromise_status) end))))

-- `{ ...evidenceForm, hash_sha256: evidenceForm.hash_sha256 || null }`
evidence_body : EvidenceForm → Fields
evidence_body f = field "filename" (str f.filename) (
    field "hash_sha256" (nullable (or_null f.hash_sha256))
      (field "description" (str f.description) (field "custody_notes" (str f.custody_notes) end)))

-- `editingEvidenceDraft`, sent as it is
draft_body : EvidenceForm → Fields
draft_body f = field "filename" (str f.filename) (
    field "description" (str f.description)
      (field "hash_sha256" (str f.hash_sha256) (field "custody_notes" (str f.custody_notes) end)))

key_of : String → String → Effect
key_of name case_id = invalidate (str name ∷ str case_id ∷ [])

-- The answers of the server.
on_asset_created : String → Register → Register × List Effect
unfolding key_of empty_asset
on_asset_created id r = (
  record r { asset_form = empty_asset },
  key_of "case-assets" id ∷ key_of "case-timeline" id ∷ [],
)

on_asset_updated : String → Register → Register × List Effect
unfolding key_of
on_asset_updated id r = (r, key_of "case-assets" id ∷ key_of "case-timeline" id ∷ [])

on_asset_deleted : String → Register → Register × List Effect
unfolding key_of
on_asset_deleted id r = (r, key_of "case-assets" id ∷ [])

on_evidence_created : String → Register → Register × List Effect
unfolding key_of empty_evidence
on_evidence_created id r = (
  record r { evidence_form = empty_evidence },
  key_of "case-evidence" id ∷ key_of "case-timeline" id ∷ [],
)

on_evidence_updated : String → Register → Register × List Effect
on_evidence_updated id r = (record r { editing_evidence_id = none }, key_of "case-evidence" id ∷ [])

on_evidence_deleted : String → Register → Register × List Effect
unfolding key_of
on_evidence_deleted id r = (r, key_of "case-evidence" id ∷ [])

unfoldable pub act : String → Register → Event → Register × List Effect
unfolding asset_body evidence_body draft_body key_of empty_asset empty_evidence on_asset_created
    on_asset_updated on_asset_deleted on_evidence_created on_evidence_updated on_evidence_deleted
act id r (change_asset f) = (record r { asset_form = f }, [])
act id r (click_add_asset is_pending) = (
  r,
  if not (truthy (trim r.asset_form.name)) || is_pending
      then []
      else send (cases (create_case_asset id (obj (asset_body r.asset_form)))) ∷ [],
)
act id r (pick_compromise asset_id status) = (
  r,
  send (cases (update_case_asset id asset_id (obj (field "compromise_status" (str status) end))))
      ∷ [],
)
act id r (delete_asset asset_id) = (r, send (cases (delete_case_asset id asset_id)) ∷ [])
act id r (change_evidence f) = (record r { evidence_form = f }, [])
act id r (click_add_evidence is_pending) = (
  r,
  if not (truthy (trim r.evidence_form.filename)) || is_pending
      then []
      else send (cases (create_case_evidence id (obj (evidence_body r.evidence_form)))) ∷ [],
)
act id r (edit e) = (
  record r {
    editing_evidence_id = some e.id;
    editing_evidence_draft = record {
      filename = e.filename;
      description = e.description;
      hash_sha256 = e.hash_sha256;
      custody_notes = e.custody_notes;
    };
  },
  [],
)
act id r (change_draft f) = (record r { editing_evidence_draft = f }, [])
act id r cancel_edit = (record r { editing_evidence_id = none }, [])
act id r (save_edit e) = (
  r,
  if found_is r.editing_evidence_id e.id
      then send (cases (update_case_evidence id e.id (obj (draft_body r.editing_evidence_draft))))
        ∷ []
      else [],
)
act id r (delete_evidence evidence_id) =
    (r, send (cases (delete_case_evidence id evidence_id)) ∷ [])
act id r asset_created = on_asset_created id r
act id r asset_updated = on_asset_updated id r
act id r asset_deleted = on_asset_deleted id r
act id r evidence_created = on_evidence_created id r
act id r evidence_updated = on_evidence_updated id r
act id r evidence_deleted = on_evidence_deleted id r
