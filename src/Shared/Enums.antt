-- ===== src/Shared/Enums.antt =====
-- app/shared/enums.py: the enums, with the text that the database stores for each value.
use ats_project_management_b.Prelude.{Bool, Eq, String, arith, false, nat_eq, true, ℕ, ◌↔◌, ◌≡◌}

pub data UserRole : Type 0 where
  admin employee : UserRole

pub data ProjectStatus : Type 0 where
  planning active on_hold completed archived : ProjectStatus

pub data MemberRole : Type 0 where
  lead contributor : MemberRole

pub data TaskStatus : Type 0 where
  todo in_progress in_review done : TaskStatus

pub data TaskPriority : Type 0 where
  low medium high urgent : TaskPriority

pub data NotificationType : Type 0 where
  project_membership task_assignment general : NotificationType

pub data SortOrder : Type 0 where
  asc desc : SortOrder

-- `role.value`
abbrev pub role_value : UserRole → String
role_value UserRole.admin = "admin"
role_value UserRole.employee = "employee"

abbrev pub project_status_value : ProjectStatus → String
project_status_value ProjectStatus.planning = "planning"
project_status_value ProjectStatus.active = "active"
project_status_value ProjectStatus.on_hold = "on_hold"
project_status_value ProjectStatus.completed = "completed"
project_status_value ProjectStatus.archived = "archived"

-- `status.value`
abbrev pub status_value : TaskStatus → String
status_value TaskStatus.todo = "todo"
status_value TaskStatus.in_progress = "in_progress"
status_value TaskStatus.in_review = "in_review"
status_value TaskStatus.done = "done"

abbrev pub priority_value : TaskPriority → String
priority_value TaskPriority.low = "low"
priority_value TaskPriority.medium = "medium"
priority_value TaskPriority.high = "high"
priority_value TaskPriority.urgent = "urgent"

-- The place of a value in its enum, by which two values are compared.
abbrev pub role_index : UserRole → ℕ
role_index UserRole.admin = 0
role_index UserRole.employee = 1

abbrev pub member_role_index : MemberRole → ℕ
member_role_index MemberRole.lead = 0
member_role_index MemberRole.contributor = 1

abbrev pub task_status_index : TaskStatus → ℕ
task_status_index TaskStatus.todo = 0
task_status_index TaskStatus.in_progress = 1
task_status_index TaskStatus.in_review = 2
task_status_index TaskStatus.done = 3

abbrev pub task_priority_index : TaskPriority → ℕ
task_priority_index TaskPriority.low = 0
task_priority_index TaskPriority.medium = 1
task_priority_index TaskPriority.high = 2
task_priority_index TaskPriority.urgent = 3

abbrev pub project_status_index : ProjectStatus → ℕ
project_status_index ProjectStatus.planning = 0
project_status_index ProjectStatus.active = 1
project_status_index ProjectStatus.on_hold = 2
project_status_index ProjectStatus.completed = 3
project_status_index ProjectStatus.archived = 4

pub user_role_beq_iff : (a b : UserRole) → (nat_eq (role_index a) (role_index b) ≡ true) ↔ (a ≡ b)
user_role_beq_iff a b = ground arith

instance abbrev pub user_role_eq : Eq UserRole
user_role_eq = record {
  beq = λ a b. nat_eq (role_index a) (role_index b);
  beq_iff = user_role_beq_iff;
}

pub member_role_beq_iff :
    (a b : MemberRole) → (nat_eq (member_role_index a) (member_role_index b) ≡ true) ↔ (a ≡ b)
member_role_beq_iff a b = ground arith

instance abbrev pub member_role_eq : Eq MemberRole
member_role_eq = record {
  beq = λ a b. nat_eq (member_role_index a) (member_role_index b);
  beq_iff = member_role_beq_iff;
}

pub task_status_beq_iff :
    (a b : TaskStatus) → (nat_eq (task_status_index a) (task_status_index b) ≡ true) ↔ (a ≡ b)
task_status_beq_iff a b = ground arith

instance abbrev pub task_status_eq : Eq TaskStatus
task_status_eq = record {
  beq = λ a b. nat_eq (task_status_index a) (task_status_index b);
  beq_iff = task_status_beq_iff;
}

pub task_priority_beq_iff :
    (a b : TaskPriority) → (nat_eq (task_priority_index a) (task_priority_index b) ≡ true) ↔ (a ≡ b)
task_priority_beq_iff a b = ground arith

instance abbrev pub task_priority_eq : Eq TaskPriority
task_priority_eq = record {
  beq = λ a b. nat_eq (task_priority_index a) (task_priority_index b);
  beq_iff = task_priority_beq_iff;
}

pub project_status_beq_iff :
    (a b : ProjectStatus)
    → (nat_eq (project_status_index a) (project_status_index b) ≡ true) ↔ (a ≡ b)
project_status_beq_iff a b = ground arith

instance abbrev pub project_status_eq : Eq ProjectStatus
project_status_eq = record {
  beq = λ a b. nat_eq (project_status_index a) (project_status_index b);
  beq_iff = project_status_beq_iff;
}

-- `role == UserRole.admin`
abbrev pub is_admin : UserRole → Bool
is_admin UserRole.admin = true
is_admin UserRole.employee = false

-- `role == MemberRole.lead`
abbrev pub is_lead : MemberRole → Bool
is_lead MemberRole.lead = true
is_lead MemberRole.contributor = false
