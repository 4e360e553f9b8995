-- ===== src/Mail.antt =====
-- internal/auth/mail/smtp.go: the text of the verification mail. `net/smtp` sends it.
-- The link in the mail.
use go_auth_api.Base.{String, ◌<>◌}
use go_auth_api.Config.Load.{SmtpMailer}

unfoldable pub verification_link : String → String → String
verification_link base_url token = base_url <> "/verify-email?t=" <> token

-- The page of the mail, with the link in three places.
abbrev verification_page : String → String
verification_page link =
    "<!DOCTYPE html>\n" <> "<html>\n" <> "<head>\n" <> "\t<meta charset=\"UTF-8\">\n"
    <> "\t<style>\n" <> "\t\tbody { font-family: Arial, sans-serif; line-height: 1.6; color: "
    <> "#333333; }\n" <> "\t\t.container { max-width: 600px; margin: 0 auto; padding: 20px; "
    <> "border: 1px solid #e0e0e0; border-radius: 8px; }\n"
    <> "\t\t.header { font-size: 24px; font-weight: bold; color: #1a73e8; "
    <> "margin-bottom: 20px; }\n"
    <> "\t\t.button { display: inline-block; padding: 12px 24px; margin: "
    <> "20px 0; color: #ffffff !important; background-color: #1a73e8; "
    <> "text-decoration: none; border-radius: 4px; font-weight: bold; }\n"
    <> "\t\t.footer { margin-top: 30px; font-size: 12px; color: #666666; "
    <> "border-top: 1px solid #eeeeee; padding-top: 10px; }\n" <> "\t</style>\n" <> "</head>\n"
    <> "<body>\n" <> "\t<div class=\"container\">\n"
    <> "\t\t<div class=\"header\">Welcome aboard!</div>\n" <> "\t\t<p>Hi there,</p>\n"
    <> "\t\t<p>Thank you for signing up. Please click the button below to "
    <> "verify your email address and activate your account:</p>\n" <> "\n" <> "\t\t<a href=\""
    <> link <> "\" class=\"button\">Verify Email Address</a>\n" <> "\n"
    <> "\t\t<p>If the button doesn't work, copy and paste this link:</p>\n"
    <> "\t\t<p style=\"font-size: 12px; word-break: break-all;\">\n" <> "\t\t\t<a href=\"" <> link
    <> "\">" <> link <> "</a>\n" <> "\t\t</p>\n" <> "\n" <> "\t\t<div class=\"footer\">\n"
    <> "\t\t\t<p>If you didn't create an account, you can safely ignore this " <> "email.</p>\n"
    <> "\t\t\t<p>&copy; Grillworks</p>\n" <> "\t\t</div>\n" <> "\t</div>\n" <> "</body>\n"
    <> "</html>"

-- The message that `SendVerificationEmail` hands to `smtp.SendMail`.
unfoldable pub verification_message : SmtpMailer → String → String → String
verification_message m to token =
    "From: "
    <> m.from
    <> "\r\n"
    <> "To: "
    <> to
    <> "\r\n"
    <> "Subject: Verify your email\r\n"
    <> "MIME-Version: 1.0\r\n"
    <> "Content-Type: text/html; charset=UTF-8\r\n"
    <> "\r\n"
    <> verification_page (verification_link m.base_url token)
