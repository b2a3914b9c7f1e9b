-- ===== src/Models/Tables.antt =====
-- The tables. A table is the list of its rows in the order of insertion; a query whose order
-- matters names its order.
use ats_project_management_b.Prelude.{List}
use ats_project_management_b.Models.Users.{User}
use ats_project_management_b.Models.Tokens.{RefreshToken}
use ats_project_management_b.Models.Projects.{Project, ProjectMember}
use ats_project_management_b.Models.Tasks.{Task, Comment, FileAttachment}
use ats_project_management_b.Models.Notifications.{Notification}

pub record Database (F : Type 0) : Type 0 where
  pub users : List User
  pub tokens : List RefreshToken
  pub projects : List Project
  pub members : List ProjectMember
  pub tasks : List (Task F)
  pub comments : List Comment
  pub files : List FileAttachment
  pub notifications : List Notification
