-- ===== src/Service/Login/NewDevice.antt =====
-- internal/auth/service.go: `enqueueNewDeviceEmailTx`, which nothing calls yet.
-- `DeviceInfo` of internal/auth/middleware.go
use go_auth_api.Base.{String, none, ◌<>◌}
use go_auth_api.Models.Account.{Tenant, User}
use go_auth_api.Models.Event.{email_new_device_login, email_payload, new_device_login, new_event}
use go_auth_api.Repo.Outbox.{create_event}
use go_auth_api.Service.Context.{Service}
use go_auth_api.World.{Env}
use go_auth_api.World.Action.{Action, in_tx, marshal, new_uuid_v7, time_now, ◌>>=◌}

pub record DeviceInfo : Type 0 where
  pub device_id : String
  pub user_agent : String
  pub device_ip : String

-- `enqueueNewDeviceEmailTx`
unfoldable pub enqueue_new_device_email :
    Env → Service → User → Tenant → DeviceInfo → Action (Unit {0})
enqueue_new_device_email env s user tenant device = do
  event_id ← new_uuid_v7 env
  now ← time_now env
  payload ← marshal env (
      email_payload (record {
        tenant = tenant.tenant_name;
        user_id = user.id;
        email = user.email;
        username = none;
        event_id = event_id;
        ip = device.device_ip;
        payload_data =
            new_device_login device.user_agent device.device_ip now
              (s.app_url <> "/forgot-password");
      }))
  create_event env in_tx (record (new_event event_id email_new_device_login payload now now) {
    aggregate_type = "user";
    aggregate_id = user.id;
  })
