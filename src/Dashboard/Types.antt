-- ===== src/Dashboard/Types.antt =====
-- The data of the dashboard (types/auth.ts, types/equipment.ts).
use microservices_practice.Common.{ℕ, String, Option, Bool, ◌==◌}

pub data Role : Type 0 where
  admin ops_manager crew_supervisor ground_crew viewer : Role

-- `===` on roles.
abbrev role_number : Role → ℕ
role_number admin = 0
role_number ops_manager = 1
role_number crew_supervisor = 2
role_number ground_crew = 3
role_number viewer = 4

abbrev pub same_role : Role → Role → Bool
same_role a b = role_number a == role_number b

pub record User : Type 0 where
  pub id : String
  pub username : String
  pub email : Option String
  pub role : Role
  pub is_active : Bool
  pub created_at : String

pub record LoginResponse : Type 0 where
  pub token : String
  pub user : User

pub data EquipmentType : Type 0 where
  gpu pushback_tug belt_loader fuel_truck lavatory_truck water_truck catering_truck : EquipmentType
  air_start_unit de_icing_truck : EquipmentType

unfoldable pub type_number : EquipmentType → ℕ
type_number gpu = 0
type_number pushback_tug = 1
type_number belt_loader = 2
type_number fuel_truck = 3
type_number lavatory_truck = 4
type_number water_truck = 5
type_number catering_truck = 6
type_number air_start_unit = 7
type_number de_icing_truck = 8

abbrev pub same_type : EquipmentType → EquipmentType → Bool
same_type a b = type_number a == type_number b

pub data EquipmentStatus : Type 0 where
  available in_use maintenance out_of_service : EquipmentStatus

abbrev status_number : EquipmentStatus → ℕ
status_number available = 0
status_number in_use = 1
status_number maintenance = 2
status_number out_of_service = 3

abbrev pub same_status : EquipmentStatus → EquipmentStatus → Bool
same_status a b = status_number a == status_number b

pub record Equipment : Type 0 where
  pub id : String
  pub equipment_type : EquipmentType
  pub registration : String
  pub terminal : Option String
  pub status : EquipmentStatus
